-- ===== src/Vkd/Hash.antt =====
-- vkd/hash.rs: the hash of a leaf's bytes, the hash of two nodes, and their circuit forms. SHA-256, the
-- Poseidon sponge that absorbs elements and is squeezed once (`squeeze`), arkworks' Poseidon gadget of a
-- list (`crh`), `evaluate` of `TwoToOneCRH`, which its gadget computes too, the 32 bytes of a field
-- element (`to_sponge_bytes` natively, `to_bytes` in the circuit), and `to_bits_le` are parameters.
pub mod Free
pub mod Leaf
mod Tests
use hekaton_system.Prelude.{
  ℕ, zero, suc, Bool, true, false, Option, none, some, List, [], ◌∷◌, ◌++◌, map, flatten, length,
  take, drop, ◌==◌, if◌then◌else◌,
}
use hekaton_system.Field.{PrimeField}
use hekaton_system.SparseTree.{Bytes, InnerHash, inner_hash_size}
use hekaton_system.TreeHash.Digest.{bits_le, input_digest, digest_to_fpvar, fpvar_to_digest}

pub data HashType : Type 0 where
  sha256 : HashType
  poseidon : HashType

abbrev pub hash_type : HashType
hash_type = poseidon

abbrev pub is_sha256 : HashType → Bool
is_sha256 sha256 = true
is_sha256 poseidon = false

-- `chunks(n)`, for as many rounds as there are elements.
unfoldable pub chunk_rounds {ℓ} : {A : Type ℓ} → ℕ → ℕ → List A → List (List A)
chunk_rounds zero n xs = []
chunk_rounds (suc rounds) n [] = []
chunk_rounds (suc rounds) n (x ∷ xs) = take n (x ∷ xs) ∷ chunk_rounds rounds n (drop n (x ∷ xs))

abbrev pub chunks {ℓ} : {A : Type ℓ} → ℕ → List A → List (List A)
chunks n xs = chunk_rounds (length xs) n xs

-- The bits of a chunk's bytes, as a field element.
unfoldable pub chunk_to_fp {ℓ} : {F : Type ℓ} ⦃f : PrimeField F⦄ → Bytes → F
chunk_to_fp ⦃f⦄ chunk = f.le_bits_to_fp (flatten (map (bits_le 8) chunk))

module _ {ℓ} {F : Type ℓ} ⦃f : PrimeField F⦄ (sha256_digest : Bytes → Bytes) where
  unfoldable pub hash : (List F → F) → (F → Bytes) → Bytes → Bytes
  hash squeeze to_sponge_bytes value =
      if is_sha256 hash_type
      then sha256_digest value
      else take 32 (to_sponge_bytes (squeeze (map input_digest (chunks inner_hash_size value))))

  -- `leaf[0]` panics where the leaf is empty.
  unfoldable pub hash_var : (List F → F) → (F → Bytes) → Bytes → Option Bytes
  hash_var crh to_bytes leaf =
      if is_sha256 hash_type
      then some (sha256_digest leaf)
      else if length leaf == 0
      then none
      else some (take 32 (to_bytes (crh (map chunk_to_fp (chunks inner_hash_size leaf)))))

module _ {ℓ} {F : Type ℓ} ⦃f : PrimeField F⦄ (sha256_digest : Bytes → Bytes) (evaluate : F → F → F)
    (to_sponge_bytes : F → Bytes) where
  unfoldable pub hash_inner_node : InnerHash → InnerHash → InnerHash
  hash_inner_node left right =
      if is_sha256 hash_type
      then take inner_hash_size (sha256_digest (left ++ right))
      else take inner_hash_size
          (to_sponge_bytes (evaluate (input_digest left) (input_digest right)))

  -- `assign` is the value that the prover gives the new witness which the function returns with
  -- Poseidon, from the inputs and the value that the code's closure computes. No constraint fixes it.
  unfoldable pub hash_inner_node_var : (F → List Bool) → (F → F → F → F) → F → F → F
  hash_inner_node_var to_bits_le assign left_input right_input =
      if is_sha256 hash_type
      then digest_to_fpvar (
          sha256_digest
            (fpvar_to_digest to_bits_le left_input ++ fpvar_to_digest to_bits_le right_input))
      else assign left_input right_input
          (input_digest (take inner_hash_size (to_sponge_bytes (evaluate left_input right_input))))

-- The assignment of the code's own closure.
abbrev pub honest {ℓ} : {F : Type ℓ} → F → F → F → F
honest left_input right_input value = value
