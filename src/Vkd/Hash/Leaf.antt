-- ===== src/Vkd/Hash/Leaf.antt =====
-- vkd/hash.rs: the hash of bytes in the circuit and natively.
use hekaton_system.Prelude.{
  ℕ, false, ◌≤◌, ◌++◌, take-append-drop, length-drop, ◌==◌, zero, suc, ◌<◌, ◌≡◌, refl, ap, ap₂, ◌∙◌,
  some, List, [], ◌∷◌, map, flatten, length, length-take, take, drop, arith,
}
use hekaton_system.Field.{PrimeField}
use hekaton_system.SparseTree.{Bytes, inner_hash_size}
use hekaton_system.TreeHash.Digest.{bits_le, input_digest}
use hekaton_system.TreeHash.Packing.{IsBytes, take-IsBytes, of_bits-bytes}
use hekaton_system.Vkd.Hash.{hash, hash_var, chunk_to_fp, chunk_rounds, chunks}

drop-IsBytes : (n : ℕ) (d : Bytes) → IsBytes d → IsBytes (drop n d)
drop-IsBytes zero d h = h
drop-IsBytes (suc n) [] h = tt
drop-IsBytes (suc n) (b ∷ d) h = drop-IsBytes n d h.1

module _ {ℓ} {F : Type ℓ} ⦃f : PrimeField F⦄ where
  chunk_to_fp-input_digest : (d : Bytes) → IsBytes d → ◌≡◌ {A = F} (chunk_to_fp d) (input_digest d)
  unfolding chunk_to_fp input_digest
  chunk_to_fp-input_digest d h =
      f.le_bits_to_fp_lem (flatten (map (bits_le 8) d)) ∙ ap f.from_uint (of_bits-bytes d h)

  chunk_rounds-input_digest :
      (rounds n : ℕ) (d : Bytes)
      → IsBytes d
      → ◌≡◌ {A = List F}
          (map chunk_to_fp (chunk_rounds rounds n d))
          (map input_digest (chunk_rounds rounds n d))
  unfolding chunk_rounds
  chunk_rounds-input_digest zero n d h = refl
  chunk_rounds-input_digest (suc rounds) n [] h = refl
  chunk_rounds-input_digest (suc rounds) n (b ∷ d) h =
      ap₂ ◌∷◌ (chunk_to_fp-input_digest (take n (b ∷ d)) (take-IsBytes n (b ∷ d) h))
        (chunk_rounds-input_digest rounds n (drop n (b ∷ d)) (drop-IsBytes n (b ∷ d) h))

chunk_rounds-flatten {ℓ} :
    {A : Type ℓ} (rounds n : ℕ) (xs : List A)
    → length xs ≤ rounds
    → flatten (chunk_rounds rounds (suc n) xs) ≡ xs
unfolding chunk_rounds flatten
chunk_rounds-flatten zero n [] h = refl
chunk_rounds-flatten zero n (x ∷ xs) h = absurd (omega arith)
chunk_rounds-flatten (suc rounds) n [] h = refl
chunk_rounds-flatten (suc rounds) n (x ∷ xs) h =
    let rest = chunk_rounds-flatten rounds n (drop n xs) (omega (arith, length-drop n xs)) in
    ap (λ ys. x ∷ (take n xs ++ ys)) rest ∙ ap (λ ys. x ∷ ys) (take-append-drop n xs)

module _ {ℓ} {F : Type ℓ} ⦃f : PrimeField F⦄ where
  -- Where the Poseidon gadget of a list computes what the sponge gives that absorbs its elements, and
  -- a field element has the same 32 bytes in the circuit as natively, the circuit's hash of bytes, one
  -- at least, does not panic, and is their native hash, which has 32 bytes. Both hash the same pieces of
  -- 27 bytes, which are the bytes in order when put together.
  pub hash_var-hash :
      (sha256_digest : Bytes → Bytes) (squeeze crh : List F → F)
      (to_sponge_bytes to_bytes : F → Bytes)
      → ((xs : List F) → crh xs ≡ squeeze xs)
      → ((x : F) → to_bytes x ≡ to_sponge_bytes x)
      → ((x : F) → length (to_sponge_bytes x) ≡ 32)
      → (leaf : Bytes) → IsBytes leaf
      → 0 < length leaf
      → (hash_var sha256_digest crh to_bytes leaf
          ≡ some (hash sha256_digest squeeze to_sponge_bytes leaf))
        × (length (hash sha256_digest squeeze to_sponge_bytes leaf) ≡ 32)
        × (flatten (chunks inner_hash_size leaf) ≡ leaf)
  unfolding hash hash_var
  hash_var-hash sha256_digest squeeze crh to_sponge_bytes to_bytes gadget same size leaf h long =
      let some_byte : (length leaf == 0) ≡ false = ground arith in
      let elements = chunk_rounds-input_digest (length leaf) inner_hash_size leaf h in
      let native = squeeze (map input_digest (chunks inner_hash_size leaf)) in
      (
        rw (some_byte, hash_var)
            (ap (λ x. some (take 32 x))
              (ap (λ xs. to_bytes (crh xs)) elements ∙ ap to_bytes (gadget _) ∙ same native)),
        omega (arith, size native, length-take 32 (to_sponge_bytes native)),
        chunk_rounds-flatten (length leaf) 26 leaf (omega arith),
      )
