-- ===== src/Hpack/Integer/Bounds.antt =====
-- `decode_uint32` on any bytes, well formed or not.
use libhttp.Prelude.{
  ℕ, suc, ◌+◌, ◌-◌, ◌*◌, ◌%◌, ◌^◌, ◌<◌, ◌≤◌, ◌≡◌, refl, ap, List, [], ◌∷◌, ◌++◌, length, leb, ltb,
  ◌==◌, Bool-cases, inl, inr, arith, bit_and,
}
use libhttp.Prelude.Bits.{and-mask}
use libhttp.Hpack.{Decoded, at, nullptr, outside}
use libhttp.Hpack.Integer.{int_mask, decode_loop, decode_uint32}
use libhttp.Hpack.Integer.RoundTrip.{two-pow-le}
use native.Mathlib.Nat.{mod-lt}

-- The value fits 32 bits, and the pointer has moved on by 1 to `most` bytes of the input.
abbrev pub Advances : List ℕ → ℕ → Decoded (ℕ × List ℕ) → Type 0
Advances src most (at (v, rest)) =
    (v < 2 ^ 32)
    × (front : List ℕ) × (src ≡ front ++ rest)
    × (1 ≤ length front)
    × (length front ≤ most)
Advances src most nullptr = Unit
Advances src most outside = ⊥

Advances-cons :
    (b : ℕ) (src : List ℕ) (most : ℕ) (r : Decoded (ℕ × List ℕ))
    → Advances src most r
    → Advances (b ∷ src) (suc most) r
Advances-cons b src most (at (v, rest)) (hv, front, e, lo, hi) =
    (hv, b ∷ front, ap (◌∷◌ b) e, omega arith, omega arith)
Advances-cons b src most nullptr h = tt
Advances-cons b src most outside h = h

-- `m` is 7 times the count of bytes read, and the loop refuses a sixth.
decode_loop-Advances :
    (src : List ℕ) (dst m j : ℕ)
    → dst < 2 ^ 32
    → m ≡ 7 * j
    → j ≤ 5
    → Advances src (5 - j) (decode_loop src dst m)
unfolding decode_loop
decode_loop-Advances [] dst m j hd hm hj = tt
decode_loop-Advances (b ∷ bs) dst m j hd hm hj =
    let addend = bit_and b 0x7f * 2 ^ m % 2 ^ 32 in
    elim (Bool-cases (leb 32 m)) [
      | inl e ↦ rw e tt
      | inr small ↦ elim (Bool-cases (ltb (2 ^ 32 - 1 - addend) dst)) [
        | inl e ↦ rw (small, e) tt
        | inr fits ↦
            let count : 5 - j ≡ suc (5 - (j + 1)) = ground arith in
            let sum : dst + addend < 2 ^ 32 = ground arith in
            elim (Bool-cases (bit_and b 0x80 == 0)) [
              | inl e ↦ rw (small, fits, e) (sum, b ∷ [], refl, omega arith, ground arith)
              | inr e ↦
                  rw (small, fits, e, count)
                    (Advances-cons b bs (5 - (j + 1)) _ (
                      decode_loop-Advances bs (dst + addend) (m + 7) (j + 1) sum (omega arith)
                        (ground arith)))
            ]
      ]
    ]

-- On any input that is not empty, with a prefix of 1 to 8 bits, the decoder stays inside the buffer:
-- it refuses the integer, or its value fits 32 bits and the pointer it returns has moved on by 1 to 6
-- bytes of the input.
pub decode_uint32-Advances :
    (n b : ℕ) (src : List ℕ)
    → 1 ≤ n
    → n ≤ 8
    → Advances (b ∷ src) 6 (decode_uint32 (b ∷ src) (int_mask n))
unfolding decode_uint32
decode_uint32-Advances n b src lo hi =
    let small : bit_and b (int_mask n) < 2 ^ 32 = omega (
      arith,
      and-mask n b,
      mod-lt b {m = 2 ^ n} (omega (arith, two-pow-le n lo hi)),
      two-pow-le n lo hi,
    ) in
    elim (Bool-cases (bit_and b (int_mask n) == int_mask n)) [
      | inl e ↦ rw e (
          Advances-cons b src 5 _ (
            decode_loop-Advances src (bit_and b (int_mask n)) 0 0 small (omega arith)
              (omega arith)))
      | inr e ↦ rw e (small, b ∷ [], refl, omega arith, omega arith)
    ]
