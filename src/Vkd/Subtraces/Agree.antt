-- ===== src/Vkd/Subtraces/Agree.antt =====
-- The native memories against the wires: a node's wire holds the field element of the node in the
-- memory, and an index's wire that of the bits, which the memory has negated.
use mathlib.Core.Option.{some-injective}
use hekaton_system.Prelude.{
  ℕ, zero, suc, ◌+◌, ◌≡◌, refl, sym, ap, ◌∙◌, Bool, not, some, bind-inv, List, [], ◌∷◌, map, length,
  arith, get_elem?, All, All-get_elem?, subst,
}
use hekaton_system.Prelude.Assoc.{lookup, insert, lookup-insert_self, lookup-insert_ne}
use hekaton_system.Field.{PrimeField}
use hekaton_system.Portal.Rom.Wires.{setup_set-wire}
use hekaton_system.SparseTree.{Bytes, InnerHash}
use hekaton_system.TreeHash.Digest.{digest_to_fpvar, input_digest}
use hekaton_system.TreeHash.Packing.{input_digest-digest_to_fpvar}
use hekaton_system.Vkd.Wire.{WireName, WireName-discrete, index}
use hekaton_system.Vkd.Constraints.{Setup, setup, set_index}
use hekaton_system.Vkd.Constraints.Satisfied.{value, Later}
use hekaton_system.Vkd.Constraints.Native.{IsDigest}
use hekaton_system.Vkd.Subtraces.{NativeRun, put_node, native_set_index}

-- Where an insertion is looked up.
insert-cases {κ μ} :
    {V : Type κ} (P : WireName → V → Type μ) (name : WireName) (v : V) (m : List (WireName × V))
    → P name v
    → ((k : WireName) (w : V) → lookup WireName-discrete k m ≡ some w → P k w)
    → (k : WireName) (w : V)
    → lookup WireName-discrete k (insert WireName-discrete name v m) ≡ some w
    → P k w
insert-cases P name v m here rest k w h = elim (WireName-discrete name k) [
  | yes e ↦
      let at_name : lookup WireName-discrete name (insert WireName-discrete name v m) ≡ some w =
        ap (λ x. lookup WireName-discrete x (insert WireName-discrete name v m)) e ∙ h in
      let same : v ≡ w =
        some-injective _ _ (sym (lookup-insert_self WireName-discrete name v m) ∙ at_name) in
      subst (λ x. P x w) e (subst (P name) same here)
  | no ne ↦ rest k w (sym (lookup-insert_ne WireName-discrete name k v m ne) ∙ h)
]

module _ {ℓ} {F : Type ℓ} ⦃f : PrimeField F⦄ (n : ℕ) where
  abbrev IsNode : Setup F → WireName → InnerHash → Type ℓ
  IsNode pm k d = (value pm k ≡ some (input_digest d)) × IsDigest d

  abbrev IsPiece : Setup F → WireName → List Bool → Type ℓ
  IsPiece pm k bits =
      (piece : List Bool) × (bits ≡ map not piece)
      × (length piece ≡ n)
      × (value pm k ≡ some (f.le_bits_to_fp piece))

  abbrev Nodes : Setup F → List (WireName × InnerHash) → Type ℓ
  Nodes pm m =
      (k : WireName) (d : InnerHash) → lookup WireName-discrete k m ≡ some d → IsNode pm k d

  abbrev Pieces : Setup F → List (WireName × List Bool) → Type ℓ
  Pieces pm m =
      (k : WireName) (bits : List Bool)
      → lookup WireName-discrete k m ≡ some bits
      → IsPiece pm k bits

  abbrev pub Agrees : NativeRun F → Type ℓ
  Agrees s = Nodes s.pm s.inner_node_memory × Pieces s.pm s.index_memory

  Nodes-Later :
      (pm pm' : Setup F) (m : List (WireName × InnerHash)) → Later pm pm' → Nodes pm m → Nodes pm' m
  Nodes-Later pm pm' m ext all k d h = let (is, dig) = all k d h in (ext k _ is, dig)

  Pieces-Later :
      (pm pm' : Setup F) (m : List (WireName × List Bool))
      → Later pm pm'
      → Pieces pm m
      → Pieces pm' m
  Pieces-Later pm pm' m ext all k bits h =
      let (piece, e, l, is) = all k bits h in (piece, e, l, ext k _ is)

  pub Agrees-Later :
      (s : NativeRun F) (pm' : Setup F) → Later s.pm pm' → Agrees s → Agrees (record s { pm = pm' })
  Agrees-Later s pm' ext (nodes, pieces) = (
    Nodes-Later s.pm pm' s.inner_node_memory ext nodes,
    Pieces-Later s.pm pm' s.index_memory ext pieces,
  )

  pub put_node-Agrees :
      (name : WireName) (d : InnerHash) (s s' : NativeRun F)
      → put_node name d s ≡ some s'
      → IsDigest d
      → Agrees s
      → Agrees s' × (setup.set name (digest_to_fpvar d) s.pm ≡ some s'.pm)
  unfolding put_node
  put_node-Agrees name d s s' h dig (nodes, pieces) =
      let (pm, g, h1) = bind-inv (setup.set name (digest_to_fpvar d) s.pm) _ h in
      let (is, ext, adds) = setup_set-wire WireName-discrete name (digest_to_fpvar d) s.pm g in
      let is' : value pm name ≡ some (input_digest d) =
        is ∙ ap some (sym (input_digest-digest_to_fpvar d dig.0 dig.1)) in
      subst (λ x. Agrees x × (setup.set name (digest_to_fpvar d) s.pm ≡ some x.pm))
        (some-injective _ _ h1)
        (
          (
            insert-cases (IsNode pm) name d s.inner_node_memory (is', dig)
                (Nodes-Later s.pm pm s.inner_node_memory ext nodes),
            Pieces-Later s.pm pm s.index_memory ext pieces,
          ),
          g,
        )

get_elem?-map {ℓ κ} :
    {A : Type ℓ} {B : Type κ} (g : A → B) (xs : List A) (i : ℕ) {y : B}
    → get_elem? (map g xs) i ≡ some y
    → (x : A) × (get_elem? xs i ≡ some x) × (y ≡ g x)
get_elem?-map g [] i h = absurd (ground arith)
get_elem?-map g (x ∷ xs) zero h = (x, refl, sym (some-injective _ _ h))
get_elem?-map g (x ∷ xs) (suc i) h = get_elem?-map g xs i h

module _ {ℓ} {F : Type ℓ} ⦃f : PrimeField F⦄ (n : ℕ) (hash : Bytes → Bytes)
    (hash_inner_node_var : F → F → F) (to_bits_le : F → List Bool) (depth : ℕ) where
  -- The two loops over the pieces of an index.
  pub native_set_index-set_index :
      (username : Bytes) (pieces : List (List Bool)) (i left : ℕ) (s s' : NativeRun F)
      → All (λ p. length p ≡ n) pieces
      → native_set_index username (map f.le_bits_to_fp pieces) (map (map not) pieces) i left s
        ≡ some s'
      → Agrees n s
      → Agrees n s'
        × (set_index hash hash_inner_node_var to_bits_le depth setup username pieces i left s.pm
            ≡ some s'.pm)
  unfolding native_set_index set_index
  native_set_index-set_index username pieces i zero s s' sizes h agrees =
      let same : s ≡ s' = some-injective _ _ h in
      (subst (Agrees n) same agrees, ap (λ x. some x.pm) same)
  native_set_index-set_index username pieces i (suc left) s s' sizes h (nodes, memory) =
      let (bits, g, h1) = bind-inv (get_elem? (map (map not) pieces) i) _ h in
      let (v, g', h2) = bind-inv (get_elem? (map f.le_bits_to_fp pieces) i) _ h1 in
      let (pm, set, h3) = bind-inv (setup.set (index i username) v s.pm) _ h2 in
      let (piece, e, negated) = get_elem?-map (map not) pieces i g in
      let (piece', e', packed) = get_elem?-map f.le_bits_to_fp pieces i g' in
      let same : piece' ≡ piece = ground arith in
      let v_is : v ≡ f.le_bits_to_fp piece = packed ∙ ap f.le_bits_to_fp same in
      let (is, ext, adds) = setup_set-wire WireName-discrete (index i username) v s.pm set in
      let size = All-get_elem? (λ p. length p ≡ n) pieces i piece sizes e in
      let (agrees, rest) = native_set_index-set_index username pieces (i + 1) left _ s' sizes h3 (
        Nodes-Later n s.pm pm s.inner_node_memory ext nodes,
        insert-cases (IsPiece n pm) (index i username) bits s.index_memory
            (piece, negated, size, is ∙ ap some v_is)
            (Pieces-Later n s.pm pm s.index_memory ext memory),
      ) in
      (
        agrees,
        rw (e, set_index)
            (rw (ap (λ x. setup.set (index i username) x s.pm) (sym v_is) ∙ set, set_index) rest),
      )
