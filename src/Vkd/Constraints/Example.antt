-- ===== src/Vkd/Constraints/Example.antt =====
-- Hashes over the numbers that have what is asked of the directory's hashes, for the tests.
use hekaton_system.Prelude.{◌/◌, ◌≤◌, ℕ, zero, suc, ◌+◌, ◌*◌, ◌%◌, ◌≡◌, refl, ◌∷◌, replicate, arith}
use hekaton_system.Field.Tests.{numbers}
use hekaton_system.SparseTree.{Bytes, InnerHash}
use hekaton_system.TreeHash.Digest.{of_le_bytes, bits_le, input_digest}
use hekaton_system.TreeHash.Packing.{replicate-IsBytes, length-bits_le, of_bits-bits_le}
use hekaton_system.Vkd.Constraints.Native.{Suits}

abbrev pub hash : Bytes → Bytes
hash v = replicate 32 (of_le_bytes v % 251)

-- The order of the children counts.
abbrev pub hash_inner_node : InnerHash → InnerHash → InnerHash
hash_inner_node l r = ((of_le_bytes l + 3 * of_le_bytes r) % 251) ∷ replicate 26 0

abbrev pub hash_inner_node_var : ℕ → ℕ → ℕ
hash_inner_node_var l r = (l + 3 * r) % 251

of_le_bytes-zeros : (n : ℕ) → of_le_bytes (replicate n 0) ≡ 0
unfolding of_le_bytes
of_le_bytes-zeros zero = refl
of_le_bytes-zeros (suc n) = omega (arith, of_le_bytes-zeros n)

pub numbers-Suits :
    (depth : ℕ)
    → depth ≡ 8 * (depth / 8)
    → depth ≤ 256
    → Suits hash hash_inner_node hash_inner_node_var (bits_le 216) depth 216
unfolding input_digest of_le_bytes
numbers-Suits depth e l = record {
  hashes = λ v. (refl, replicate-IsBytes 32 (of_le_bytes v % 251) (omega arith));
  digests = λ l r. (refl, (omega arith, replicate-IsBytes 26 0 (omega arith)));
  gadget = λ l r. omega (arith, of_le_bytes-zeros 26);
  le = record { same_width = length-bits_le 216; spells = of_bits-bits_le 216 };
  wide = omega arith;
  large = omega arith;
  bytes = e;
  fits = l;
}
