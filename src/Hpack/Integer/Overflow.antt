-- ===== src/Hpack/Integer/Overflow.antt =====
-- Integers above 32 bits: the shift of the fifth group drops its high bits, and the check that
-- follows cannot see them.
use libhttp.Prelude.{
  ℕ, ◌+◌, ◌*◌, ◌%◌, ◌^◌, ◌<◌, ◌≤◌, ◌≡◌, ap, ◌∙◌, List, ◌∷◌, arith, bit_and, true, ◌==◌,
}
use libhttp.Prelude.Bits.{and-mask}
use libhttp.Hpack.{at}
use libhttp.Hpack.Integer.{int_mask, decode_loop, decode_uint32}
use libhttp.Hpack.Integer.RoundTrip.{low_seven, high_bit, two-pow-le, further_round}
use native.Mathlib.Nat.{mod-eq_of_lt}

-- The integer that five groups stand for (RFC 7541, section 5.1).
abbrev pub five_groups : ℕ → ℕ → ℕ → ℕ → ℕ → ℕ → ℕ
five_groups prefix g0 g1 g2 g3 g4 =
    prefix + g0 + g1 * 2 ^ 7 + g2 * 2 ^ 14 + g3 * 2 ^ 21 + g4 * 2 ^ 28

fifth_byte :
    (g acc : ℕ) (rest : List ℕ)
    → g < 128
    → acc + g % 16 * 2 ^ 28 < 2 ^ 32
    → decode_loop (g ∷ rest) acc 28 ≡ at (acc + g % 16 * 2 ^ 28, rest)
unfolding decode_loop
fifth_byte g acc rest hg fits = ground (arith, low_seven g, high_bit g)

-- Whatever the prefix and the first four groups, an integer whose fifth group needs more than the
-- four bits that are left of 32 is decoded as another one, with these bits dropped, although its own
-- value does not fit 32 bits, as long as what is left of it does.
pub fifth_group-truncated :
    (n g0 g1 g2 g3 g4 : ℕ) (rest : List ℕ)
    → 1 ≤ n
    → n ≤ 8
    → g0 < 128
    → g1 < 128
    → g2 < 128
    → g3 < 128
    → 16 ≤ g4
    → g4 < 128
    → five_groups (int_mask n) g0 g1 g2 g3 (g4 % 16) < 2 ^ 32
    → (decode_uint32
          (int_mask n ∷ (g0 + 128) ∷ (g1 + 128) ∷ (g2 + 128) ∷ (g3 + 128) ∷ g4 ∷ rest)
          (int_mask n)
        ≡ at (five_groups (int_mask n) g0 g1 g2 g3 (g4 % 16), rest))
      × (2 ^ 32 ≤ five_groups (int_mask n) g0 g1 g2 g3 g4)
unfolding decode_uint32
fifth_group-truncated n g0 g1 g2 g3 g4 rest lo hi h0 h1 h2 h3 wide h4 fits =
    let prefix : bit_and (int_mask n) (int_mask n) ≡ int_mask n =
      and-mask n (int_mask n) ∙ mod-eq_of_lt (omega (arith, two-pow-le n lo hi)) in
    let m = int_mask n in
    let full : (m == m) ≡ true = ground arith in
    let a0 = m + g0 * 2 ^ 0 in
    let a1 = a0 + g1 * 2 ^ 7 in
    let a2 = a1 + g2 * 2 ^ 14 in
    let a3 = a2 + g3 * 2 ^ 21 in
    (
      rw (prefix, full)
          (further_round m 0 g0 _ (omega arith) h0 (omega arith)
            ∙ further_round a0 7 g1 _ (omega arith) h1 (omega arith)
            ∙ further_round a1 14 g2 _ (omega arith) h2 (omega arith)
            ∙ further_round a2 21 g3 _ (omega arith) h3 (omega arith)
            ∙ fifth_byte g4 a3 rest h4 (omega arith)
            ∙ ap (λ (t : ℕ). at (t, rest)) (omega arith)),
      omega arith,
    )
