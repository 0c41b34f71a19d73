-- ===== src/TreeHash/Packing.antt =====
-- A digest that is packed into a field element and unpacked again.
use native.Mathlib.Nat.{pow-suc}
use hekaton_system.Prelude.{
  ℕ, zero, suc, ◌*◌, ◌/◌, ◌%◌, ◌^◌, ◌≤◌, ◌<◌, ◌≡◌, refl, sym, ap, ap₂, ◌∙◌, Bool, List, [], ◌∷◌,
  ◌++◌, map, flatten, replicate, ◌==◌, take, length, length-take, All, arith,
}
use hekaton_system.Uint32.Value.{of_bits, of_bit, of_bits-lt}
use hekaton_system.Field.{PrimeField}
use hekaton_system.SparseTree.{Bytes, inner_hash_size}
use hekaton_system.TreeHash.Digest.{
  bits_le, bytes_of_bits, digest_to_fpvar, fpvar_to_digest, of_le_bytes, input_digest,
}

abbrev pub IsBytes : Bytes → Type 0
IsBytes d = All (λ (b : ℕ). b < 256) d

last_digit : (n : ℕ) → of_bit (n % 2 == 1) ≡ n % 2
last_digit n = ground arith

pub of_bits-bits_le : (width n : ℕ) → n < 2 ^ width → of_bits (bits_le width n) ≡ n
unfolding bits_le
of_bits-bits_le zero n h = omega arith
of_bits-bits_le (suc w) n h =
    omega (arith, last_digit n, of_bits-bits_le w (n / 2) (omega (arith, pow-suc 2 w)))

-- Bits that spell one number agree as far as the shorter list goes.
pub of_bits-prefix :
    (xs ys : List Bool)
    → length xs ≤ length ys
    → of_bits ys ≡ of_bits xs
    → (rest : List Bool) × (ys ≡ xs ++ rest)
of_bits-prefix [] ys h e = (ys, refl)
of_bits-prefix (x ∷ xs) [] h e = absurd (omega arith)
of_bits-prefix (x ∷ xs) (y ∷ ys) h e =
    let (rest, p) = of_bits-prefix xs ys (omega arith) (ground arith) in
    let same : y ≡ x = ground arith in (rest, rw (same, p) refl)

pack : Bytes → List Bool
unfolding bits_le
pack d = flatten (map (bits_le 8) d)

length-pack : (d : Bytes) → length (pack d) ≡ 8 * length d
unfolding pack flatten bits_le
length-pack [] = omega arith
length-pack (b ∷ d) = omega (arith, length-pack d)

bytes_of_bits-pack :
    (d : Bytes) (rest : List Bool) → IsBytes d → bytes_of_bits (length d) (pack d ++ rest) ≡ d
unfolding pack flatten bits_le bytes_of_bits
bytes_of_bits-pack [] rest h = refl
bytes_of_bits-pack (b ∷ d) rest h =
    ap₂ (◌∷◌) (of_bits-bits_le 8 b h.0) (bytes_of_bits-pack d rest h.1)

pub take-IsBytes : (n : ℕ) (d : Bytes) → IsBytes d → IsBytes (take n d)
take-IsBytes zero d h = tt
take-IsBytes (suc n) [] h = tt
take-IsBytes (suc n) (b ∷ d) h = (h.0, take-IsBytes n d h.1)

module _ {ℓ} {F : Type ℓ} ⦃f : PrimeField F⦄ (to_bits_le : F → List Bool) where
  -- What is used of `to_bits_le`: the digits of the least representative, at a fixed width.
  pub record IsLeBits (width : ℕ) : Type ℓ where
    pub same_width : (x : F) → length (to_bits_le x) ≡ width
    pub spells : (n : ℕ) → n < f.modulus → of_bits (to_bits_le (f.from_uint n)) ≡ n

  fpvar_to_digest-pack :
      (d : Bytes) (width : ℕ)
      → length d ≡ inner_hash_size
      → IsBytes d
      → IsLeBits width
      → 8 * inner_hash_size ≤ width
      → 2 ^ (8 * inner_hash_size) ≤ f.modulus
      → fpvar_to_digest to_bits_le (f.le_bits_to_fp (pack d)) ≡ d
  unfolding fpvar_to_digest
  fpvar_to_digest-pack d width l b bits wide large =
      let n = length-pack d in
      let sized : length (pack d) ≡ 8 * inner_hash_size = omega arith in
      let small : of_bits (pack d) < f.modulus =
        omega (arith, of_bits-lt (pack d), ap (λ (t : ℕ). 2 ^ t) sized) in
      let x = f.from_uint (of_bits (pack d)) in
      let (rest, p) =
        of_bits-prefix (pack d) (to_bits_le x) (omega (arith, bits.same_width x))
          (bits.spells (of_bits (pack d)) small) in
      rw (f.le_bits_to_fp_lem (pack d), p)
        (ap (λ (t : ℕ). bytes_of_bits t (pack d ++ rest)) (sym l) ∙ bytes_of_bits-pack d rest b)

  -- In a field with more than 2^216 elements whose elements have at least 216 binary digits, packing
  -- a digest of at least 27 bytes into a field element and unpacking it returns its first 27 bytes.
  pub fpvar_to_digest-digest_to_fpvar :
      (d : Bytes) (width : ℕ)
      → inner_hash_size ≤ length d
      → IsBytes d
      → IsLeBits width
      → 8 * inner_hash_size ≤ width
      → 2 ^ (8 * inner_hash_size) ≤ f.modulus
      → fpvar_to_digest to_bits_le (digest_to_fpvar d) ≡ take inner_hash_size d
  unfolding digest_to_fpvar pack
  fpvar_to_digest-digest_to_fpvar d width l b bits wide large =
      fpvar_to_digest-pack (take inner_hash_size d) width
        (length-take inner_hash_size d ∙ omega arith) (take-IsBytes inner_hash_size d b) bits wide
        large

of_le_bytes-pack : (d : Bytes) → IsBytes d → of_bits (pack d) ≡ of_le_bytes d
unfolding pack of_le_bytes flatten bits_le
of_le_bytes-pack [] h = refl
of_le_bytes-pack (b ∷ d) h = omega (arith, of_bits-bits_le 8 b h.0, of_le_bytes-pack d h.1)

pub of_bits-bytes : (d : Bytes) → IsBytes d → of_bits (flatten (map (bits_le 8) d)) ≡ of_le_bytes d
unfolding pack
of_bits-bytes d h = of_le_bytes-pack d h

pub take-length : (d : Bytes) (n : ℕ) → length d ≡ n → take n d ≡ d
take-length [] zero h = refl
take-length [] (suc n) h = refl
take-length (b ∷ d) zero h = absurd (omega arith)
take-length (b ∷ d) (suc n) h = ap (◌∷◌ b) (take-length d n (omega arith))

-- An inner hash that is witnessed as one field element is the field element of its bits.
pub input_digest-digest_to_fpvar {ℓ} :
    {F : Type ℓ} ⦃f : PrimeField F⦄ (d : Bytes)
    → length d ≡ inner_hash_size
    → IsBytes d
    → ◌≡◌ {A = F} (input_digest d) (digest_to_fpvar d)
unfolding input_digest digest_to_fpvar pack
input_digest-digest_to_fpvar {F} ⦃f⦄ d l b =
    rw (take-length d inner_hash_size l, digest_to_fpvar)
      (ap f.from_uint (sym (of_le_bytes-pack d b)) ∙ sym (f.le_bits_to_fp_lem (pack d)))

pub replicate-IsBytes : (n b : ℕ) → b < 256 → IsBytes (replicate n b)
replicate-IsBytes zero b h = tt
replicate-IsBytes (suc n) b h = (h, replicate-IsBytes n b h)

pub length-bits_le : (w n : ℕ) → length (bits_le w n) ≡ w
unfolding bits_le
length-bits_le zero n = refl
length-bits_le (suc w) n = ap suc (length-bits_le w (n / 2))
