-- ===== src/SparseTree/Path.antt =====
-- The nodes of the tree and the paths to them, while nodes are written.
use hekaton_system.Prelude.{
  ℕ, zero, suc, ◌/◌, ◌%◌, ◌<◌, ◌≡◌, ◌≢◌, refl, ap, ◌⊎◌, inl, inr, Bool, true, false, Option, none,
  some, Option-cases, List, [], ◌∷◌, bit_xor, arith, length, get_elem?,
}
use hekaton_system.Prelude.Assoc.{lookup, insert, lookup-insert_self, lookup-insert_ne}
use hekaton_system.SparseTree.{
  InnerHash, MerkleIndex, merkle_index_discrete, SparseMerkleTree, at, lookup_internal_node,
  lookup_path,
}
use hekaton_system.SparseTree.Index.{xor_one-even, xor_one-odd}

-- The hash alone of what `lookup_internal_node` finds.
abbrev pub hash_of : Option (InnerHash × Bool) → Option InnerHash
hash_of none = none
hash_of (some (h, found)) = some h

abbrev pub node : SparseMerkleTree → ℕ → ℕ → Option InnerHash
node t i d = hash_of (lookup_internal_node t i d)

abbrev pub with_node : ℕ → ℕ → InnerHash → SparseMerkleTree → SparseMerkleTree
with_node i d h t = record t { tree = insert merkle_index_discrete (at i d) h t.tree }

pub node-with_node :
    (i d : ℕ) (h : InnerHash) (t : SparseMerkleTree) → node (with_node i d h t) i d ≡ some h
unfolding lookup_internal_node
node-with_node i d h t =
    rw (lookup-insert_self merkle_index_discrete (at i d) h t.tree, lookup_internal_node) refl

pub node-with_node_ne :
    (i d j e : ℕ) (h : InnerHash) (t : SparseMerkleTree)
    → at i d ≢ at j e
    → node (with_node i d h t) j e ≡ node t j e
unfolding lookup_internal_node
node-with_node_ne i d j e h t ne =
    rw (lookup-insert_ne merkle_index_discrete (at i d) (at j e) h t.tree ne, lookup_internal_node)
      refl

pub depth_ne : (i d j e : ℕ) → d ≢ e → at i d ≢ at j e
depth_ne i d j e ne q = ne (ap (λ (x : MerkleIndex). x.depth) q)

pub index_ne : (i d j e : ℕ) → i ≢ j → at i d ≢ at j e
index_ne i d j e ne q = ne (ap (λ (x : MerkleIndex). x.index) q)

get_elem?-some :
    (l : List InnerHash) (i : ℕ) → i < length l → (h : InnerHash) × (get_elem? l i ≡ some h)
get_elem?-some [] i b = absurd (omega arith)
get_elem?-some (x ∷ l) zero b = (x, refl)
get_elem?-some (x ∷ l) (suc i) b = get_elem?-some l i (omega arith)

-- A depth that has an initial hash has nodes.
pub node-some :
    (t : SparseMerkleTree) (i d : ℕ)
    → d < length t.sparse_initial_hashes
    → (h : InnerHash) × (found : Bool) × (lookup_internal_node t i d ≡ some (h, found))
unfolding lookup_internal_node
node-some t i d b = elim (Option-cases (lookup merkle_index_discrete (at i d) t.tree)) [
  | inr (h, p) ↦ (h, true, rw (p, lookup_internal_node) refl)
  | inl p ↦
      let (h, q) = get_elem?-some t.sparse_initial_hashes d b in
      (h, false, rw (p, q, lookup_internal_node) refl)
]

-- Hence a path.
pub lookup_path-some :
    (t : SparseMerkleTree) (i d : ℕ)
    → d < length t.sparse_initial_hashes
    → (path : List InnerHash) × (lookup_path t i d ≡ some path)
unfolding lookup_path
lookup_path-some t i zero b = ([], refl)
lookup_path-some t i (suc d) b =
    let (h, found, p) = node-some t (bit_xor i 1) (suc d) b in
    let (path, q) = lookup_path-some t (i / 2) d (omega arith) in
    (h ∷ path, rw (p, q, lookup_path) refl)

-- A path to a node, one level up.
pub lookup_path-suc :
    (t t' : SparseMerkleTree) (i i' d : ℕ)
    → node t (bit_xor i 1) (suc d) ≡ node t' (bit_xor i' 1) (suc d)
    → lookup_path t (i / 2) d ≡ lookup_path t' (i' / 2) d
    → lookup_path t i (suc d) ≡ lookup_path t' i' (suc d)
unfolding lookup_path
lookup_path-suc t t' i i' d p q =
    elim (Option-cases (lookup_internal_node t (bit_xor i 1) (suc d))) [
      | inl a ↦ elim (Option-cases (lookup_internal_node t' (bit_xor i' 1) (suc d))) [
        | inl b ↦ rw (a, b, lookup_path) refl
        | inr (x, b) ↦ ground arith
      ]
      | inr ((h, f), a) ↦ elim (Option-cases (lookup_internal_node t' (bit_xor i' 1) (suc d))) [
        | inl b ↦ ground arith
        | inr ((h', f'), b) ↦
            let same : h ≡ h' = ground arith in rw (a, b, lookup_path) (ground arith)
      ]
    ]

-- Writing at or below a node's depth, elsewhere than at its sibling, leaves the path to it alone.
pub lookup_path-with_node_below :
    (j e i d : ℕ) (h : InnerHash) (t : SparseMerkleTree)
    → d < e
    → lookup_path (with_node j e h t) i d ≡ lookup_path t i d
unfolding lookup_path
lookup_path-with_node_below j e i zero h t b = refl
lookup_path-with_node_below j e i (suc d) h t b =
    lookup_path-suc (with_node j e h t) t i i d
      (node-with_node_ne j e (bit_xor i 1) (suc d) h t
        (depth_ne j e (bit_xor i 1) (suc d) (omega arith)))
      (lookup_path-with_node_below j e (i / 2) d h t (omega arith))

pub parity : (i : ℕ) → (i % 2 ≡ 0) ⊎ (i % 2 ≡ 1)
parity i = ground arith

xor_one-ne : (i : ℕ) → i ≢ bit_xor i 1
xor_one-ne i q = elim (parity i) [
  | inl p ↦ omega (arith, xor_one-even i p)
  | inr p ↦ omega (arith, xor_one-odd i p)
]

pub lookup_path-with_node :
    (i d : ℕ) (h : InnerHash) (t : SparseMerkleTree)
    → lookup_path (with_node i d h t) i d ≡ lookup_path t i d
unfolding lookup_path
lookup_path-with_node i zero h t = refl
lookup_path-with_node i (suc d) h t =
    lookup_path-suc (with_node i (suc d) h t) t i i d
      (node-with_node_ne i (suc d) (bit_xor i 1) (suc d) h t
        (index_ne i (suc d) (bit_xor i 1) (suc d) (xor_one-ne i)))
      (lookup_path-with_node_below i (suc d) (i / 2) d h t (omega arith))
