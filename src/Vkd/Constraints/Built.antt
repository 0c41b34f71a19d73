-- ===== src/Vkd/Constraints/Built.antt =====
-- The subcircuits of an update, with the pieces of its path, and what its fields must be for them.
use hekaton_system.Prelude.{
  take-prefix, ℕ, ◌/◌, ◌%◌, ◌≡◌, refl, ap, ◌∙◌, some, List, [], ◌∷◌, ◌++◌, take, length,
  append_assoc,
}
use hekaton_system.SparseTree.{Bytes, InnerHash}
use hekaton_system.Vkd.{Update, update, append, concat, next_counter}
use hekaton_system.Vkd.Layout.{
  NodeAddress, leaf_from, update_subcircuits, key_update_subcircuits, append_subcircuits,
}
use hekaton_system.Vkd.Layout.Count.{IsSized, length-concat}
use hekaton_system.Vkd.Constraints.Quarters.{Quarters}
use hekaton_system.Vkd.Constraints.Path.{pieced, four_paths-pieced}

-- The sizes of the arrays of an update, and a path of full length.
abbrev pub IsFull : ℕ → Update → Type 0
IsFull depth (update u) = IsSized (update u) × (length u.path ≡ depth)
IsFull depth (append u) = IsSized (append u) × (length u.path ≡ depth)

pub take-concat :
    (username key : Bytes) (counter : ℕ)
    → length username ≡ 32
    → take 32 (concat username key counter) ≡ username
unfolding concat
take-concat username key counter l =
    let bytes : Bytes = (counter % 256) ∷ (counter / 256 % 256) ∷ [] in
    ap (take 32) (append_assoc username bytes key) ∙ take-prefix username (bytes ++ key) 32 l

-- The subcircuits of an update, with the pieces of its path.
pub append_built :
    (update_idx n : ℕ) (username key : Bytes) (path : List InnerHash) (q : Quarters path n)
    → length username ≡ 32
    → length key ≡ 32
    → update_subcircuits update_idx
        (append (record { username = username; key = key; path = path }))
      ≡ some (
          append_subcircuits update_idx
            (concat username key 0)
            (pieced path n q update_idx 0 NodeAddress.null_leaf (concat username key 0))
            (pieced path n q update_idx 1
              (NodeAddress.leaf_hash (concat username key 0))
              (concat username key 0)))
unfolding update_subcircuits
append_built update_idx n username key path q ln lk =
    let leaf = concat username key 0 in
    let is66 : leaf_from leaf ≡ some leaf = rw (length-concat username key 0 ln lk) refl in
    let four = four_paths-pieced path n q update_idx in
    rw (is66, update_subcircuits)
      (rw (four 0 NodeAddress.null_leaf leaf, update_subcircuits)
        (rw (four 1 (NodeAddress.leaf_hash leaf) leaf, update_subcircuits) refl))

pub update_built :
    (update_idx n counter : ℕ) (username key1 key2 : Bytes) (path : List InnerHash)
    (q : Quarters path n)
    → length username ≡ 32
    → length key1 ≡ 32
    → length key2 ≡ 32
    → update_subcircuits update_idx (
        update (record {
          username = username;
          counter = counter;
          key1 = key1;
          path = path;
          key2 = key2;
        }))
      ≡ some (
          key_update_subcircuits update_idx
            (concat username key2 (next_counter counter))
            (pieced path n q update_idx 0
              (NodeAddress.leaf_hash (concat username key1 counter))
              (concat username key1 counter))
            (pieced path n q update_idx 1
              (NodeAddress.leaf_hash (concat username key2 (next_counter counter)))
              (concat username key1 counter)))
unfolding update_subcircuits
update_built update_idx n counter username key1 key2 path q ln l1 l2 =
    let leaf1 = concat username key1 counter in
    let leaf2 = concat username key2 (next_counter counter) in
    let is66 : leaf_from leaf1 ≡ some leaf1 = rw (length-concat username key1 counter ln l1) refl in
    let is66' : leaf_from leaf2 ≡ some leaf2 =
      rw (length-concat username key2 (next_counter counter) ln l2) refl in
    let four = four_paths-pieced path n q update_idx in
    rw (is66, update_subcircuits)
      (rw (four 0 (NodeAddress.leaf_hash leaf1) leaf1, update_subcircuits)
        (rw (is66', update_subcircuits)
          (rw (four 1 (NodeAddress.leaf_hash leaf2) leaf1, update_subcircuits) refl)))
