-- ===== src/Vkd/Layout/Count.antt =====
-- The number of subcircuits that a list of updates takes.
use hekaton_system.Prelude.{
  ℕ, suc, ◌+◌, ◌*◌, ◌<◌, zero, ◌≢◌, ◌%◌, ◌/◌, ◌≡◌, refl, none, some, Option-cases, inl, inr, List,
  [], ◌∷◌, ◌++◌, length, length-append, get_elem?, All, arith,
}
use hekaton_system.SparseTree.{Bytes, InnerHash}
use hekaton_system.SparseTree.Split.{split-flatten}
use hekaton_system.Vkd.{Update, update, append, concat, next_counter}
use hekaton_system.Vkd.Layout.{
  leaf_from, NodeAddress, node_addresses_at, path_primitive, key_update_subcircuits,
  append_subcircuits, with_ends, PrimitiveSubcircuit, SubCircuit, FourPaths, get_node_addresses,
  compute_path_at, four_paths, update_subcircuits, all_subcircuits, vkd_update_to_subcircuit,
}

-- The username and the keys of an update have 32 bytes each.
abbrev pub IsSized : Update → Type 0
IsSized (update u) = (length u.username ≡ 32) × (length u.key1 ≡ 32) × (length u.key2 ≡ 32)
IsSized (append u) = (length u.username ≡ 32) × (length u.key ≡ 32)

get_elem?-none : (l : List (List InnerHash)) (i : ℕ) → i < length l → get_elem? l i ≢ none
get_elem?-none [] i b h = omega arith
get_elem?-none (x ∷ l) zero b h = ground arith
get_elem?-none (x ∷ l) (suc i) b h = get_elem?-none l i (omega arith) h

four_at :
    (l : List (List InnerHash)) (i : ℕ)
    → length l ≡ 4
    → i < 4
    → (v : List InnerHash) × (get_elem? l i ≡ some v)
four_at l i n b = elim (Option-cases (get_elem? l i)) [
  | inr h ↦ h
  | inl h ↦ absurd (get_elem?-none l i (omega arith) h)
]

compute_path_at-some :
    (update_idx path_id : ℕ) (initial_node : NodeAddress) (leaf : Bytes) (path : List InnerHash)
    (i : ℕ) (addresses : NodeAddress × NodeAddress)
    → i < 4
    → get_elem? (get_node_addresses update_idx path_id initial_node) i ≡ some addresses
    → (p : PrimitiveSubcircuit) × (compute_path_at update_idx path_id initial_node leaf path i
        ≡ some p)
unfolding compute_path_at
compute_path_at-some update_idx path_id initial_node leaf path i addresses b h =
    let (out, s, _, n) = split-flatten path 4 2 refl in
    let (v, g) = four_at out i n b in
    (
      path_primitive update_idx path_id leaf i addresses v,
      rw (h, compute_path_at) (rw (s, compute_path_at) (rw (g, compute_path_at) refl)),
    )

four_paths-some :
    (update_idx path_id : ℕ) (initial_node : NodeAddress) (leaf : Bytes) (path : List InnerHash)
    → (f : FourPaths) × (four_paths update_idx path_id initial_node leaf path ≡ some f)
unfolding get_node_addresses four_paths node_addresses_at
four_paths-some update_idx path_id initial_node leaf path =
    let at_piece = compute_path_at-some update_idx path_id initial_node leaf path in
    let (a, pa) = at_piece 0 _ (omega arith) refl in
    let (b, pb) = at_piece 1 _ (omega arith) refl in
    let (c, pc) = at_piece 2 _ (omega arith) refl in
    let (d, pd) = at_piece 3 _ (omega arith) refl in
    (
      record { first = a; second = b; third = c; fourth = d },
      rw (pa, four_paths) (rw (pb, four_paths) (rw (pc, four_paths) (rw (pd, four_paths) refl))),
    )

pub length-concat :
    (username key : Bytes) (counter : ℕ)
    → length username ≡ 32
    → length key ≡ 32
    → length (concat username key counter) ≡ 66
unfolding concat
length-concat username key counter p q =
    let bytes : List ℕ = (counter % 256) ∷ (counter / 256 % 256) ∷ [] in
    omega (
      arith,
      length-append username (bytes ++ key),
      length-append bytes key,
      length-append (username ++ bytes) key,
      length-append username bytes,
    )

length-ends : (scs : List SubCircuit) (sc : SubCircuit) → length (scs ++ (sc ∷ [])) ≡ length scs + 1
length-ends scs sc = omega (arith, length-append scs (sc ∷ []))

update_subcircuits-some :
    (update_idx : ℕ) (u : Update)
    → IsSized u
    → (scs : List SubCircuit) × (update_subcircuits update_idx u ≡ some scs) × (length scs ≡ 8)
unfolding update_subcircuits
update_subcircuits-some update_idx (update u) (n, k1, k2) =
    let leaf1 = concat u.username u.key1 u.counter in
    let leaf2 = concat u.username u.key2 (next_counter u.counter) in
    let (old, p) = four_paths-some update_idx 0 (NodeAddress.leaf_hash leaf1) leaf1 u.path in
    let (new, q) = four_paths-some update_idx 1 (NodeAddress.leaf_hash leaf2) leaf1 u.path in
    let l1 : leaf_from leaf1 ≡ some leaf1 =
      rw (length-concat u.username u.key1 u.counter n k1) refl in
    let l2 : leaf_from leaf2 ≡ some leaf2 =
      rw (length-concat u.username u.key2 (next_counter u.counter) n k2) refl in
    (
      key_update_subcircuits update_idx leaf2 old new,
      rw (l1, update_subcircuits)
          (rw (p, update_subcircuits)
            (rw (l2, update_subcircuits) (rw (q, update_subcircuits) refl))),
      refl,
    )
update_subcircuits-some update_idx (append u) (n, k) =
    let leaf = concat u.username u.key 0 in
    let (old, p) = four_paths-some update_idx 0 NodeAddress.null_leaf leaf u.path in
    let (new, q) = four_paths-some update_idx 1 (NodeAddress.leaf_hash leaf) leaf u.path in
    let l : leaf_from leaf ≡ some leaf = rw (length-concat u.username u.key 0 n k) refl in
    (
      append_subcircuits update_idx leaf old new,
      rw (l, update_subcircuits) (rw (p, update_subcircuits) (rw (q, update_subcircuits) refl)),
      refl,
    )

all_subcircuits-some :
    (update_idx : ℕ) (us : List Update)
    → All IsSized us
    → (scs : List SubCircuit) × (all_subcircuits update_idx us ≡ some scs)
      × (length scs ≡ 8 * length us)
unfolding all_subcircuits
all_subcircuits-some update_idx [] a = ([], refl, refl)
all_subcircuits-some update_idx (u ∷ us) a =
    let (scs, p, n) = update_subcircuits-some update_idx u a.0 in
    let (rest, q, m) = all_subcircuits-some (suc update_idx) us a.1 in
    (
      scs ++ rest,
      rw (p, all_subcircuits) (rw (q, all_subcircuits) refl),
      omega (arith, length-append scs rest),
    )

-- For updates whose usernames and keys have 32 bytes, of which there is at least one, building the
-- subcircuits does not panic and makes eight for each update and eight more.
pub vkd_update_to_subcircuit-length :
    (u : Update) (us : List Update)
    → All IsSized (u ∷ us)
    → (scs : List SubCircuit) × (vkd_update_to_subcircuit (u ∷ us) ≡ some scs)
      × (length scs ≡ 8 * length (u ∷ us) + 8)
unfolding vkd_update_to_subcircuit
vkd_update_to_subcircuit-length u us a =
    let (scs, p, n) = all_subcircuits-some 0 (u ∷ us) a in
    (
      with_ends (length (u ∷ us)) scs,
      rw (p, vkd_update_to_subcircuit) refl,
      omega (arith, n, length-ends scs _),
    )
