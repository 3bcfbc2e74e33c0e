-- ===== src/Hpack/Decode/Strings.antt =====
-- Strings of a header block: what encode.cc writes, the parsers of decode.cc read.
use libhttp.Prelude.{
  ℕ, ◌+◌, ◌-◌, ◌%◌, ◌^◌, ◌<◌, ◌≡◌, refl, sym, ap, ◌∙◌, Bool, true, List, [], ◌∷◌, ◌++◌, length,
  take_all, take-append, drop-append, length-append, append_assoc, ltb, leb, ◌==◌, bit_and,
  Bool-cases, inl, inr, arith,
}
use libhttp.Prelude.Bits.{or-zero}
use libhttp.Hpack.{at}
use libhttp.Hpack.Integer.{
  int_mask, decode_uint32, uint16_encode_impl, uint16_encode_length, or_first, encode_loop,
}
use libhttp.Hpack.Integer.RoundTrip.{decode-impl, length-uint16_encode_impl, high_bit}
use libhttp.Hpack.Encode.{string_bytes}
use libhttp.Hpack.Decode.{Huffman, parse_checked}

pub or_nothing : (bs : List ℕ) → or_first 0 bs ≡ bs
unfolding or_first
or_nothing [] = refl
or_nothing (b ∷ bs) = ap (λ (c : ℕ). c ∷ bs) (or-zero b)

decode-length :
    (i : ℕ) (rest : List ℕ)
    → i < 2 ^ 32
    → decode_uint32 (uint16_encode_impl i (int_mask 7) ++ rest) (int_mask 7) ≡ at (i, rest)
decode-length i rest h =
    ap (λ bs. decode_uint32 (bs ++ rest) (int_mask 7))
      (sym (or_nothing (uint16_encode_impl i (int_mask 7))))
    ∙ decode-impl 7 0 i rest (omega arith) (omega arith) h

-- The first byte of a length leaves the Huffman bit clear.
record IsPlain (bytes : List ℕ) : Type 0 where
  first : ℕ
  others : List ℕ
  split : bytes ≡ first ∷ others
  clear : (bit_and first 0x80 == 0) ≡ true

uint16_encode_impl-IsPlain : (i : ℕ) → IsPlain (uint16_encode_impl i (int_mask 7))
unfolding uint16_encode_impl
uint16_encode_impl-IsPlain i = elim (Bool-cases (ltb i (int_mask 7))) [
  | inl short ↦ rw short (record {
    first = i % 256;
    others = [];
    split = refl;
    clear = ground (arith, high_bit (i % 256));
  })
  | inr long ↦
      rw long (record {
        first = 127;
        others = encode_loop (i - 127) (i - 127);
        split = refl;
        clear = refl;
      })
]

parse_checked-plain :
    (huffman : Huffman) (check : List ℕ → Bool) (b n : ℕ) (bs s rest : List ℕ)
    → (bit_and b 0x80 == 0) ≡ true
    → decode_uint32 (b ∷ bs) (int_mask 7) ≡ at (n, s ++ rest)
    → n ≡ length s
    → length s + length rest < 2 ^ 32
    → check s ≡ true
    → parse_checked huffman check (b ∷ bs) ≡ at (s, rest)
unfolding parse_checked
parse_checked-plain huffman check b n bs s rest clear decoded size h fits =
    let long = length-append s rest in
    let within : leb n (length (s ++ rest) % 2 ^ 32) ≡ true = ground arith in
    let front = take-append s rest size in
    let back = drop-append s rest size in rw (decoded, clear, within, front, back, fits) refl

pub parse_checked-string_bytes :
    (huffman : Huffman) (check : List ℕ → Bool) (s rest : List ℕ)
    → length s + length rest < 2 ^ 32
    → check s ≡ true
    → parse_checked huffman check (string_bytes s ++ rest) ≡ at (s, rest)
parse_checked-string_bytes huffman check s rest h fits =
    let narrow : length s % 2 ^ 32 ≡ length s = omega arith in
    let plain = uint16_encode_impl-IsPlain (length s) in
    let whole = append_assoc (uint16_encode_impl (length s) (int_mask 7)) s rest in
    let decoded = decode-length (length s) (s ++ rest) (omega arith) in
    let all = take_all s {n = length s} (omega arith) in
    rw (narrow, all, whole, plain.split)
      (parse_checked-plain huffman check plain.first (length s) (plain.others ++ (s ++ rest)) s rest
        plain.clear
        (ap (λ bs. decode_uint32 (bs ++ (s ++ rest)) (int_mask 7)) (sym plain.split) ∙ decoded) refl
        h fits)

pub length-string_bytes :
    (s : List ℕ)
    → length s < 2 ^ 32
    → length (string_bytes s) ≡ uint16_encode_length (length s % 2 ^ 32) (int_mask 7) + length s
length-string_bytes s h =
    let narrow : length s % 2 ^ 32 ≡ length s = omega arith in
    let all = take_all s {n = length s} (omega arith) in
    rw (narrow, all)
      (length-append (uint16_encode_impl (length s) (int_mask 7)) s
        ∙ ap (λ (n : ℕ). n + length s) (length-uint16_encode_impl (length s) (int_mask 7)))
