-- ===== src/Hpack/Integer.antt =====
-- The prefix integers of RFC 7541, section 5.1: `decode_uint32` of src/hpack/decode.cc and the
-- integer functions of src/hpack/encode.cc. A pointer is the list of the bytes from it to the end.
pub mod Bounds
pub mod RoundTrip
pub mod Overflow
use libhttp.Prelude.{
  ℕ, zero, suc, ◌+◌, ◌-◌, ◌*◌, ◌/◌, ◌%◌, ◌^◌, true, false, List, [], ◌∷◌, Option, if◌then◌else◌,
  ltb, leb, ◌==◌, bit_and, bit_or,
}
use libhttp.Slice.{fill}
use libhttp.Hpack.{Decoded, at, nullptr, outside}

-- INT_MASK
abbrev pub int_mask : ℕ → ℕ
int_mask bits = 2 ^ bits - 1

-- The loop; the list is what stands behind `src`, and `m` counts the bits read.
unfoldable pub decode_loop : List ℕ → ℕ → ℕ → Decoded (ℕ × List ℕ)
decode_loop [] dst m = nullptr
decode_loop (b ∷ bs) dst m =
    let addend = bit_and b 0x7f * 2 ^ m % 2 ^ 32 in
    let more = decode_loop bs (dst + addend) (m + 7) in
    if leb 32 m
    then nullptr
    else if ltb (2 ^ 32 - 1 - addend) dst
    then nullptr
    else if bit_and b 0x80 == 0
    then at (dst + addend, bs)
    else more

unfoldable pub decode_uint32 : List ℕ → ℕ → Decoded (ℕ × List ℕ)
decode_uint32 [] mask = outside
decode_uint32 (b ∷ bs) mask =
    let dst = bit_and b mask in if dst == mask then decode_loop bs dst 0 else at (dst, bs)

-- `while (I >= 128)` with fuel `I`, which suffices: at no fuel `I` is 0.
unfoldable pub encode_loop : ℕ → ℕ → List ℕ
encode_loop zero i = (i % 256) ∷ []
encode_loop (suc fuel) i = elim (leb 128 i) [
  | true ↦ (bit_or (bit_and i 0x7f) 0x80 % 256) ∷ encode_loop fuel (i / 2 ^ 7)
  | false ↦ (i % 256) ∷ []
]

unfoldable pub uint16_encode_impl : ℕ → ℕ → List ℕ
uint16_encode_impl i mask =
    if ltb i mask then (i % 256) ∷ [] else mask ∷ encode_loop (i - mask) (i - mask)

-- `count` when the loop ends, and the last increment.
unfoldable pub count_loop : ℕ → ℕ → ℕ → ℕ
count_loop zero i count = count + 1
count_loop (suc fuel) i count = elim (leb 128 i) [
  | true ↦ count_loop fuel (i / 2 ^ 7) (count + 1)
  | false ↦ count + 1
]

unfoldable pub uint16_encode_length : ℕ → ℕ → ℕ
uint16_encode_length i mask = if ltb i mask then 1 else count_loop (i - mask) (i - mask) 1

unfoldable pub encode_uint16 : ℕ → ℕ → Option (List ℕ)
encode_uint16 i mask = fill (uint16_encode_length i mask) (uint16_encode_impl i mask)

-- `buf[0] |= bits`
unfoldable pub or_first : ℕ → List ℕ → List ℕ
or_first bits [] = []
or_first bits (b ∷ bs) = bit_or b bits ∷ bs
