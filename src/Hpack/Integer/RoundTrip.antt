-- ===== src/Hpack/Integer/RoundTrip.antt =====
-- What the encoder writes for an integer, in plain arithmetic, and that the decoder reads it back.
use libhttp.Prelude.{
  ℕ, zero, suc, ◌+◌, ◌-◌, ◌*◌, ◌/◌, ◌%◌, ◌^◌, ◌<◌, ◌≤◌, ◌≡◌, ap, ◌∙◌, List, ◌∷◌, ◌++◌, some, length,
  leb, ltb, Bool-cases, inl, inr, arith, bit_and, bit_or,
}
use libhttp.Prelude.Bits.{and-mask, and-bit, or-add_right}
use libhttp.Slice.{fill}
use libhttp.Hpack.{at}
use libhttp.Hpack.Integer.{
  int_mask, decode_loop, decode_uint32, encode_loop, uint16_encode_impl, count_loop,
  uint16_encode_length, encode_uint16, or_first,
}
use native.Mathlib.Nat.{pow-le-pow_right, div-add-mod, add-mul-mod_self_right, mod-eq_of_lt}
use native.Mathlib.Numerals.{towards_suc}

pub low_seven : (b : ℕ) → bit_and b 0x7f ≡ b % 128
low_seven b = and-mask 7 b

pub high_bit : (b : ℕ) → bit_and b 0x80 ≡ b / 128 % 2 * 128
high_bit b = and-bit 7 b

continuation_byte : (i : ℕ) → bit_or (bit_and i 0x7f) 0x80 % 256 ≡ i % 128 + 128
continuation_byte i =
    omega (arith, low_seven i, or-add_right 7 1 (bit_and i 0x7f) (omega (arith, low_seven i)))

-- The two rounds of the decoder's loop: on a last byte, and on one that goes on.
-- The bits read lie below `dst`, so that `m` counts them.
pub final_round :
    (dst m value : ℕ) (behind : List ℕ)
    → m < 32
    → value < 128
    → dst + value * 2 ^ m < 2 ^ 32
    → decode_loop ((value % 256) ∷ behind) dst m ≡ at (dst + value * 2 ^ m, behind)
unfolding decode_loop
final_round dst m value behind below small fits =
    ground (arith, high_bit (value % 256), low_seven (value % 256))

pub further_round :
    (dst m group : ℕ) (behind : List ℕ)
    → m < 32
    → group < 128
    → dst + group * 2 ^ m < 2 ^ 32
    → decode_loop ((group + 128) ∷ behind) dst m ≡ decode_loop behind (dst + group * 2 ^ m) (m + 7)
unfolding decode_loop
further_round dst m group behind below small fits =
    ground (arith, high_bit (group + 128), low_seven (group + 128))

-- Seven places further, a bit counts 128 times as much.
pub pow_next : (m : ℕ) → 128 * 2 ^ m ≡ 2 ^ (m + 7)
pow_next m = simp towards_suc (omega arith)

-- Where more than seven bits are left, the next shift stays below the width.
room_left : (w s : ℕ) → 128 ≤ w → w * 2 ^ s < 2 ^ 32 → s + 7 < 32
room_left w s h fits = elim (Bool-cases (leb 25 s)) [
  | inl e ↦
      absurd (grind (arith, pow-le-pow_right {n = 2} (omega arith) {i = 25} {j = s} (ground arith)))
  | inr e ↦ ground arith
]

-- The group of seven bits that goes first, and the groups after it.
groups : (value m : ℕ) → value / 128 * 2 ^ (m + 7) + value % 128 * 2 ^ m ≡ value * 2 ^ m
groups value m =
    let halves = ap {B = ℕ} (λ n. n * 2 ^ m) (div-add-mod value 128) in
    let shifted = ap {B = ℕ} (λ n. value / 128 * n) (pow_next m) in omega arith

-- `value` is what the encoder has left to write.
decode_loop-encode_loop :
    (fuel dst m value : ℕ) (behind : List ℕ)
    → value ≤ fuel
    → m < 32
    → dst + value * 2 ^ m < 2 ^ 32
    → decode_loop (encode_loop fuel value ++ behind) dst m ≡ at (dst + value * 2 ^ m, behind)
unfolding encode_loop
decode_loop-encode_loop zero dst m value behind h below fits =
    final_round dst m value behind below (omega arith) fits
decode_loop-encode_loop (suc fuel) dst m value behind h below fits =
    let sum = groups value m in
    elim (Bool-cases (leb 128 value)) [
      | inl more ↦
          rw (more, encode_loop)
            (rw (continuation_byte value) (
              further_round dst m (value % 128) _ below (omega arith) (omega arith)
              ∙ decode_loop-encode_loop fuel (dst + value % 128 * 2 ^ m) (m + 7) (value / 128)
                  behind (ground arith) (room_left value m (ground arith) (omega arith))
                  (omega arith)
              ∙ ap (λ (t : ℕ). at (t, behind)) (omega arith)))
      | inr last ↦ rw (last, encode_loop) (final_round dst m value behind below (ground arith) fits)
    ]

length-encode_loop :
    (fuel i count : ℕ) → count_loop fuel i count ≡ count + length (encode_loop fuel i)
unfolding count_loop encode_loop
length-encode_loop zero i count = omega arith
length-encode_loop (suc fuel) i count = elim (Bool-cases (leb 128 i)) [
  | inl e ↦
      rw (e, count_loop, encode_loop)
        (omega (arith, length-encode_loop fuel (i / 2 ^ 7) (count + 1)))
  | inr e ↦ rw (e, count_loop, encode_loop) (omega arith)
]

pub length-uint16_encode_impl :
    (i mask : ℕ) → length (uint16_encode_impl i mask) ≡ uint16_encode_length i mask
unfolding uint16_encode_length uint16_encode_impl
length-uint16_encode_impl i mask = ground (arith, length-encode_loop (i - mask) (i - mask) 1)

-- The buffer that the encoder allocates is filled exactly.
pub encode_uint16-some : (i mask : ℕ) → encode_uint16 i mask ≡ some (uint16_encode_impl i mask)
unfolding encode_uint16 uint16_encode_length uint16_encode_impl fill
encode_uint16-some i mask = ground (arith, length-encode_loop (i - mask) (i - mask) 1)

-- The prefix byte, with bits of a representation above the prefix, gives back the prefix.
pub prefix_byte : (n p low : ℕ) → low < 2 ^ n → bit_and (bit_or low (p * 2 ^ n)) (int_mask n) ≡ low
prefix_byte n p low h =
    rw (or-add_right n p low h)
      (and-mask n (low + p * 2 ^ n) ∙ add-mul-mod_self_right low p (2 ^ n) ∙ mod-eq_of_lt h)

pub two-pow-le : (n : ℕ) → 1 ≤ n → n ≤ 8 → (2 ≤ 2 ^ n) × (2 ^ n ≤ 256)
two-pow-le n lo hi = (
  pow-le-pow_right {n = 2} (omega arith) {i = 1} {j = n} lo,
  pow-le-pow_right {n = 2} (omega arith) {i = n} {j = 8} hi,
)

pub decode-impl :
    (n p i : ℕ) (rest : List ℕ)
    → 1 ≤ n
    → n ≤ 8
    → i < 2 ^ 32
    → decode_uint32 (or_first (p * 2 ^ n) (uint16_encode_impl i (int_mask n)) ++ rest) (int_mask n)
      ≡ at (i, rest)
unfolding decode_uint32 uint16_encode_impl or_first
decode-impl n p i rest lo hi h = elim (Bool-cases (ltb i (int_mask n))) [
  | inl e ↦ rw e (ground (arith, prefix_byte n p (i % 256), two-pow-le n lo hi))
  | inr e ↦ rw e (
      ground (
        arith,
        prefix_byte n p (int_mask n),
        two-pow-le n lo hi,
        decode_loop-encode_loop (i - int_mask n) (int_mask n) 0 (i - int_mask n) rest,
      ))
]

-- Every 32-bit integer is encoded, for each prefix of 1 to 8 bits, in a buffer of exactly the size
-- that was computed for it; and it is decoded from these bytes, whatever bits the representation sets
-- above the prefix and whatever bytes follow.
pub decode_uint32-encode_uint16 :
    (n p i : ℕ)
    → 1 ≤ n
    → n ≤ 8
    → i < 2 ^ 32
    → (bytes : List ℕ) × (encode_uint16 i (int_mask n) ≡ some bytes)
      × ((rest : List ℕ)
          → decode_uint32 (or_first (p * 2 ^ n) bytes ++ rest) (int_mask n) ≡ at (i, rest))
decode_uint32-encode_uint16 n p i lo hi h = (
  uint16_encode_impl i (int_mask n),
  encode_uint16-some i (int_mask n),
  λ rest. decode-impl n p i rest lo hi h,
)
