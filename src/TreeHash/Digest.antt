-- ===== src/TreeHash/Digest.antt =====
-- vkd/util.rs, digests as field elements: `digest_to_fpvar` and `fpvar_to_digest`, and `input_digest`
-- of tree_hash_circuit.rs. A circuit byte stands for its value. `to_bits_le`, the binary digits of a
-- field element, is arkworks' and a parameter. The comment on `digest_to_fpvar` in the source says that
-- it keeps 31 bytes; INNER_HASH_SIZE is 27.
use hekaton_system.Prelude.{
  ℕ, zero, suc, ◌+◌, ◌*◌, ◌/◌, ◌%◌, Bool, List, [], ◌∷◌, map, flatten, ◌==◌, take, drop,
}
use hekaton_system.Uint32.Value.{of_bits}
use hekaton_system.Field.{PrimeField}
use hekaton_system.SparseTree.{Bytes, InnerHash, inner_hash_size}

-- `to_bits_le` of a number of the given width.
unfoldable pub bits_le : ℕ → ℕ → List Bool
bits_le zero n = []
bits_le (suc width) n = (n % 2 == 1) ∷ bits_le width (n / 2)

-- `chunks(8).take(n)`, each chunk read by `UInt8::from_bits_le`.
unfoldable pub bytes_of_bits : ℕ → List Bool → Bytes
bytes_of_bits zero bs = []
bytes_of_bits (suc n) [] = []
bytes_of_bits (suc n) (b ∷ bs) = of_bits (take 8 (b ∷ bs)) ∷ bytes_of_bits n (drop 8 (b ∷ bs))

-- `F::from_le_bytes_mod_order`: the number that the bytes spell.
unfoldable pub of_le_bytes : Bytes → ℕ
of_le_bytes [] = 0
of_le_bytes (b ∷ bs) = b + 256 * of_le_bytes bs

module _ {ℓ} {F : Type ℓ} ⦃f : PrimeField F⦄ where
  unfoldable pub digest_to_fpvar : Bytes → F
  unfolding bits_le
  digest_to_fpvar digest = f.le_bits_to_fp (flatten (map (bits_le 8) (take inner_hash_size digest)))

  unfoldable pub input_digest : InnerHash → F
  unfolding of_le_bytes
  input_digest digest = f.from_uint (of_le_bytes digest)

module _ {ℓ} {F : Type ℓ} (to_bits_le : F → List Bool) where
  unfoldable pub fpvar_to_digest : F → Bytes
  unfolding bytes_of_bits
  fpvar_to_digest x = bytes_of_bits inner_hash_size (to_bits_le x)
