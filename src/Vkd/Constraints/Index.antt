-- ===== src/Vkd/Constraints/Index.antt =====
-- The index of a user: the bits that the circuit takes from the hash of the name, and the bit vector
-- of the native index.
use native.Mathlib.Nat.{pow-suc}
use hekaton_system.Prelude.{
  ℕ, zero, suc, ◌+◌, ◌-◌, ◌*◌, ◌^◌, ◌/◌, ◌%◌, ◌≤◌, ◌<◌, ◌≡◌, refl, sym, ap, ap₂, ◌∙◌, not, [], ◌∷◌,
  ◌++◌, map, flatten, take, length, length-take, arith, ◌==◌,
}
use hekaton_system.SparseTree.{Bytes, is_even, to_bit_vector}
use hekaton_system.TreeHash.Digest.{bits_le, of_le_bytes}
use hekaton_system.TreeHash.Packing.{IsBytes, take-IsBytes}

odd : (n : ℕ) → not (is_even n) ≡ (n % 2 == 1)
odd n = ground arith

map-not-to_bit_vector : (n width : ℕ) → map not (to_bit_vector n width) ≡ bits_le width n
unfolding to_bit_vector bits_le
map-not-to_bit_vector n zero = refl
map-not-to_bit_vector n (suc w) = ap₂ ◌∷◌ (odd n) (map-not-to_bit_vector (n / 2) w)

twice : (k m : ℕ) → 2 ^ suc k * m ≡ 2 * (2 ^ k * m)
twice k m = omega (arith, ap (λ (t : ℕ). t * m) (pow-suc 2 k))

bits_le-append :
    (k v w b m : ℕ) → v ≡ k + w → b < 2 ^ k → bits_le v (b + 2 ^ k * m) ≡ bits_le k b ++ bits_le w m
unfolding bits_le
bits_le-append zero v w b m e h =
    let low : b + 2 ^ 0 * m ≡ m = omega arith in
    let same : v ≡ w = omega arith in rw (low, same) refl
bits_le-append (suc k) zero w b m e h = absurd (omega arith)
bits_le-append (suc k) (suc v) w b m e h =
    let t = twice k m in
    let digit : (b + 2 ^ suc k * m) % 2 ≡ b % 2 = omega arith in
    let rest : (b + 2 ^ suc k * m) / 2 ≡ b / 2 + 2 ^ k * m = omega arith in
    rw (digit, rest)
      (ap (◌∷◌ (b % 2 == 1))
        (bits_le-append k v w (b / 2) m (omega arith) (omega (arith, pow-suc 2 k))))

bytes-bits_le :
    (bs : Bytes) (v : ℕ)
    → v ≡ 8 * length bs
    → IsBytes bs
    → flatten (map (bits_le 8) bs) ≡ bits_le v (of_le_bytes bs)
unfolding flatten of_le_bytes
bytes-bits_le [] v e h = rw e (unfold bits_le in refl)
bytes-bits_le (b ∷ bs) v e h =
    ap (◌++◌ (bits_le 8 b)) (bytes-bits_le bs (8 * length bs) refl h.1)
    ∙ sym (bits_le-append 8 v (8 * length bs) b (of_le_bytes bs) (omega arith) h.0)

pub take-bits :
    (k v : ℕ) (bs : Bytes)
    → v ≡ 8 * k
    → take v (flatten (map (bits_le 8) bs)) ≡ flatten (map (bits_le 8) (take k bs))
unfolding flatten bits_le
take-bits zero v bs e = let z : v ≡ 0 = omega arith in rw z refl
take-bits (suc k) v [] e = let s : v ≡ suc (v - 1) = omega arith in rw s refl
take-bits (suc k) v (b ∷ bs) e =
    let s : v ≡ suc (suc (suc (suc (suc (suc (suc (suc (8 * k)))))))) = omega arith in
    rw s (ap (◌++◌ (bits_le 8 b)) (take-bits k (8 * k) bs refl))

-- The bits of the circuit are those of the native index, each negated.
pub take-map-not :
    (k : ℕ) (bs : Bytes)
    → k ≤ length bs
    → IsBytes bs
    → take (8 * k) (flatten (map (bits_le 8) bs))
      ≡ map not (to_bit_vector (of_le_bytes (take k bs)) (8 * k))
take-map-not k bs l h =
    take-bits k (8 * k) bs refl
    ∙ bytes-bits_le (take k bs) (8 * k) (omega (arith, length-take k bs)) (take-IsBytes k bs h)
    ∙ sym (map-not-to_bit_vector (of_le_bytes (take k bs)) (8 * k))

pub length-bits : (bs : Bytes) → length (flatten (map (bits_le 8) bs)) ≡ 8 * length bs
unfolding flatten bits_le
length-bits [] = omega arith
length-bits (b ∷ bs) = omega (arith, length-bits bs)
