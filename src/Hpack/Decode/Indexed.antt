-- ===== src/Hpack/Decode/Indexed.antt =====
-- Representations with an index: what src/hpack/encode.cc writes, a round of `decode_headers` reads.
use libhttp.Prelude.{
  ℕ, ◌+◌, ◌-◌, ◌*◌, ◌%◌, ◌^◌, ◌<◌, ◌≤◌, ◌≡◌, refl, sym, ap, ◌∙◌, true, false, List, [], ◌∷◌, ◌++◌,
  Option, some, length, length-append, append_assoc, ltb, ◌==◌, bit_and, bit_or, Bool-cases, inl,
  inr, arith,
}
use mathlib.Core.Path.{subst}
use libhttp.Prelude.Bits.{and-bit, or-add_right}
use libhttp.Slice.{fill}
use libhttp.Hpack.{MdelemData, mdelem_size, at}
use libhttp.Hpack.Integer.{
  int_mask, decode_uint32, uint16_encode_impl, uint16_encode_length, encode_loop, or_first,
}
use libhttp.Hpack.Integer.RoundTrip.{
  decode-impl, encode_uint16-some, length-uint16_encode_impl, high_bit,
}
use libhttp.Hpack.Integer.Bounds.{Advances, decode_uint32-Advances}
use libhttp.Hpack.Encode.{
  string_bytes, encode_index, encode_without_indexing_key, encode_with_incremental_indexing,
  encode_without_indexing,
}
use libhttp.Hpack.Dynamic.{DynamicTable, push_mdelem_data}
use libhttp.Hpack.Decode.Strings.{or_nothing, length-string_bytes, parse_checked-string_bytes}
use libhttp.Hpack.Decode.Literals.{
  incremental, without_indexing, decode_round-literal_bytes, encode_mdelem_data_impl-some,
}
use libhttp.Hpack.Decode.{
  Huffman, entry_at, decode_round, decode_literal, decode_value, parse_string, no_upper, goes_on,
}

-- A field that was encoded in one representation, which a round of the decoder reads.
pub record IsSent (huffman : Huffman) (t t' : DynamicTable) (mdel : MdelemData)
    (encoded : Option (List ℕ)) : Type 0 where
  pub first : ℕ
  pub others : List ℕ
  pub done : encoded ≡ some (first ∷ others)
  pub decoded :
      (rest : List ℕ)
      → length (first ∷ (others ++ rest)) < 2 ^ 32
      → decode_round huffman t first (others ++ rest) ≡ goes_on rest t' (mdel ∷ [])
  pub short : length others ≤ length mdel.key + length mdel.value + 12

-- The bytes of an integer: the first lies below 2^n, and at most five follow.
record IsPrefixed (n i : ℕ) (bytes : List ℕ) : Type 0 where
  first : ℕ
  others : List ℕ
  split : bytes ≡ first ∷ others
  below : first ≤ int_mask n
  short : length others ≤ 5

module _ (n i : ℕ) (lo : 1 ≤ n) (hi : n ≤ 8) (fits : i < 2 ^ 32) where
  decode-plain :
      (rest : List ℕ)
      → decode_uint32 (uint16_encode_impl i (int_mask n) ++ rest) (int_mask n) ≡ at (i, rest)
  decode-plain rest =
      ap (λ bs. decode_uint32 (bs ++ rest) (int_mask n))
        (sym (or_nothing (uint16_encode_impl i (int_mask n))))
      ∙ ap
          (λ bits.
            decode_uint32 (or_first bits (uint16_encode_impl i (int_mask n)) ++ rest) (int_mask n))
          none_set
      ∙ decode-impl n 0 i rest lo hi fits
    where
      none_set : 0 ≡ 0 * 2 ^ n
      none_set = omega arith

  -- The decoder takes at most six bytes, and all of these.
  others_short :
      (first : ℕ) (others : List ℕ)
      → uint16_encode_impl i (int_mask n) ≡ first ∷ others
      → length others ≤ 5
  others_short first others split =
      let decoded : decode_uint32 (first ∷ (others ++ [])) (int_mask n) ≡ at (i, []) =
        ap (λ bs. decode_uint32 (bs ++ []) (int_mask n)) (sym split) ∙ decode-plain [] in
      let (small, front, whole, least, most) =
        subst (Advances (first ∷ (others ++ [])) 6) decoded
          (decode_uint32-Advances n first (others ++ []) lo hi) in
      let size = ap length whole ∙ length-append front [] in
      let size_others = length-append others [] in omega arith

  impl-IsPrefixed : IsPrefixed n i (uint16_encode_impl i (int_mask n))
  unfolding uint16_encode_impl
  impl-IsPrefixed = elim (Bool-cases (ltb i (int_mask n))) [
    | inl short ↦
        let split : uint16_encode_impl i (int_mask n) ≡ (i % 256) ∷ [] =
          rw (uint16_encode_impl, short) refl in
        record {
          first = i % 256;
          others = [];
          split = split;
          below = ground arith;
          short = omega arith;
        }
    | inr long ↦
        let split : uint16_encode_impl i (int_mask n)
            ≡ int_mask n ∷ encode_loop (i - int_mask n) (i - int_mask n) =
          rw (uint16_encode_impl, long) refl in
        record {
          first = int_mask n;
          others = encode_loop (i - int_mask n) (i - int_mask n);
          split = split;
          below = omega arith;
          short = others_short (int_mask n) _ split;
        }
  ]

pub encode_index-IsSent :
    (huffman : Huffman) (t : DynamicTable) (i : ℕ) (e : MdelemData)
    → 0 < i
    → i < 2 ^ 32
    → entry_at t i ≡ some e
    → IsSent huffman t t e (encode_index i)
unfolding encode_index decode_round or_first
encode_index-IsSent huffman t i e positive fits entry =
    let plain = impl-IsPrefixed 7 i (omega arith) (omega arith) fits in
    let below = plain.below in
    let short = plain.short in
    let marked : bit_or plain.first 0x80 ≡ plain.first + 128 =
      or-add_right 7 1 plain.first (omega arith) in
    let set : (bit_and (plain.first + 128) 0x80 == 0) ≡ false =
      ground (arith, high_bit (plain.first + 128)) in
    let not_zero : (i == 0) ≡ false = ground arith in
    record {
      first = plain.first + 128;
      others = plain.others;
      done = rw (encode_uint16-some i (int_mask 7), plain.split, or_first, marked) refl;
      decoded = λ rest h.
          let decoded : decode_uint32 ((plain.first + 128) ∷ (plain.others ++ rest)) (int_mask 7)
              ≡ at (i, rest) =
            ap (λ b. decode_uint32 (b ∷ (plain.others ++ rest)) (int_mask 7)) (sym marked)
            ∙ ap (λ bs. decode_uint32 (or_first 0x80 bs ++ rest) (int_mask 7)) (sym plain.split)
            ∙ decode-impl 7 1 i rest (omega arith) (omega arith) fits in
          rw (set, decoded, not_zero, entry) refl;
      short = omega arith;
    }

-- The first byte of an index of four bits has the bits of the other representations clear.
low_first :
    (b : ℕ)
    → b ≤ 15
    → ((bit_and b 0x80 == 0) ≡ true)
      × ((bit_and b 0x40 == 0) ≡ true)
      × ((bit_and b 0x20 == 0) ≡ true)
low_first b h =
    (ground (arith, high_bit b), ground (arith, and-bit 6 b), ground (arith, and-bit 5 b))

length-string_bytes-le : (s : List ℕ) → length s < 2 ^ 32 → length (string_bytes s) ≤ length s + 6
length-string_bytes-le s h =
    let prefix = impl-IsPrefixed 7 (length s % 2 ^ 32) (omega arith) (omega arith) (omega arith) in
    let size = ap length prefix.split in
    let short = prefix.short in
    let counted = length-uint16_encode_impl (length s % 2 ^ 32) (int_mask 7) in
    omega (arith, length-string_bytes s h)

pub encode_without_indexing_key-IsSent :
    (huffman : Huffman) (t : DynamicTable) (mdel e : MdelemData) (i : ℕ)
    → 0 < i
    → i < 2 ^ 32
    → entry_at t i ≡ some e
    → e.key ≡ mdel.key
    → length mdel.value < 2 ^ 31
    → IsSent huffman t t mdel (encode_without_indexing_key mdel i)
unfolding encode_without_indexing_key decode_round decode_literal decode_value parse_string fill
encode_without_indexing_key-IsSent huffman t mdel e i positive fits entry same_key narrow =
    let plain = impl-IsPrefixed 4 i (omega arith) (omega arith) fits in
    let below = plain.below in
    let short = plain.short in
    let (no_index, no_literal, no_update) = low_first plain.first (omega arith) in
    let not_zero : (i == 0) ≡ false = ground arith in
    let value_size = length-string_bytes mdel.value (omega arith) in
    let value_short = length-string_bytes-le mdel.value (omega arith) in
    let counted = length-uint16_encode_impl i (int_mask 4) in
    let both = length-append (uint16_encode_impl i (int_mask 4)) (string_bytes mdel.value) in
    let exact : (length (uint16_encode_impl i (int_mask 4) ++ string_bytes mdel.value)
          == uint16_encode_length i (int_mask 4)
            + uint16_encode_length (length mdel.value % 2 ^ 32) (int_mask 7)
            + length mdel.value % 2 ^ 32)
        ≡ true =
      ground arith in
    let sum = length-append plain.others (string_bytes mdel.value) in
    record {
      first = plain.first;
      others = plain.others ++ string_bytes mdel.value;
      done = rw exact (ap (λ bs. some (bs ++ string_bytes mdel.value)) plain.split);
      decoded = λ rest h.
          let regroup = append_assoc plain.others (string_bytes mdel.value) rest in
          let size =
            ap length regroup ∙ length-append plain.others (string_bytes mdel.value ++ rest) in
          let size_rest = length-append (string_bytes mdel.value) rest in
          let decoded : decode_uint32
                (plain.first ∷ (plain.others ++ (string_bytes mdel.value ++ rest))) (int_mask 4)
              ≡ at (i, string_bytes mdel.value ++ rest) =
            ap (λ bs. decode_uint32 (bs ++ (string_bytes mdel.value ++ rest)) (int_mask 4))
              (sym plain.split)
            ∙ decode-plain 4 i (omega arith) (omega arith) fits (string_bytes mdel.value ++ rest) in
          let value =
            parse_checked-string_bytes huffman (λ s. true) mdel.value rest (omega arith) refl in
          rw (no_index, no_literal, no_update, regroup, decoded, not_zero, entry, value, same_key)
            refl;
      short = omega arith;
    }

literal-short :
    (mdel : MdelemData)
    → mdelem_size mdel < 2 ^ 31
    → length (string_bytes mdel.key ++ string_bytes mdel.value)
      ≤ length mdel.key + length mdel.value + 12
unfolding mdelem_size
literal-short mdel h =
    let keys = length-string_bytes-le mdel.key (omega arith) in
    let values = length-string_bytes-le mdel.value (omega arith) in
    omega (arith, length-append (string_bytes mdel.key) (string_bytes mdel.value))

-- The two literal representations that the compressor writes.
module _ (huffman : Huffman) (t : DynamicTable) (mdel : MdelemData)
    (small : mdelem_size mdel < 2 ^ 31) (lower : no_upper mdel.key ≡ true) where
  pub encode_with_incremental_indexing-IsSent :
      IsSent huffman t (push_mdelem_data t mdel) mdel (encode_with_incremental_indexing mdel)
  unfolding encode_with_incremental_indexing
  encode_with_incremental_indexing-IsSent = record {
    first = 0x40;
    others = string_bytes mdel.key ++ string_bytes mdel.value;
    done = encode_mdelem_data_impl-some mdel 0x40 (omega arith);
    decoded = λ rest h.
        let regroup = append_assoc (string_bytes mdel.key) (string_bytes mdel.value) rest in
        rw regroup (
          decode_round-literal_bytes huffman t (incremental mdel) rest (omega arith)
            (let size = ap {B = ℕ} length regroup in omega arith) lower);
    short = literal-short mdel small;
  }

  pub encode_without_indexing-IsSent : IsSent huffman t t mdel (encode_without_indexing mdel)
  unfolding encode_without_indexing
  encode_without_indexing-IsSent = record {
    first = 0x0;
    others = string_bytes mdel.key ++ string_bytes mdel.value;
    done = encode_mdelem_data_impl-some mdel 0x0 (omega arith);
    decoded = λ rest h.
        let regroup = append_assoc (string_bytes mdel.key) (string_bytes mdel.value) rest in
        rw regroup (
          decode_round-literal_bytes huffman t (without_indexing mdel) rest (omega arith)
            (let size = ap {B = ℕ} length regroup in omega arith) lower);
    short = literal-short mdel small;
  }
