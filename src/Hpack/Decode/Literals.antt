-- ===== src/Hpack/Decode/Literals.antt =====
-- Blocks of literal fields: what encode.cc writes, `decode_headers` reads.
use libhttp.Prelude.{
  ℕ, zero, suc, ◌^◌, ◌<◌, ◌≤◌, ◌≡◌, refl, sym, ap, ◌∙◌, append-nil, Bool, true, false, List, [],
  ◌∷◌, ◌++◌, Option, some, none, length, All, map, length-append, append_assoc, if◌then◌else◌,
  arith,
}
use libhttp.Slice.{fill}
use libhttp.Hpack.{MdelemData, mdelem_size}
use libhttp.Hpack.Integer.{decode_uint32}
use libhttp.Hpack.Encode.{
  string_bytes, encode_mdelem_data_impl, encode_with_incremental_indexing, encode_without_indexing,
  encode_never_indexed,
}
use libhttp.Hpack.Dynamic.{DynamicTable, push_mdelem_data}
use libhttp.Hpack.Decode.Strings.{parse_checked-string_bytes, length-string_bytes}
use libhttp.Hpack.Decode.{
  Huffman, parse_string, parse_string_key, no_upper, decode_value, decode_literal, decode_round,
  goes_on, returns, decode_rounds, decode_headers,
}

-- A literal field in one of the three representations with a literal name.
pub data Literal : Type 0 where
  incremental without_indexing never_indexed : MdelemData → Literal

abbrev pub field : Literal → MdelemData
field (incremental mdel) = mdel
field (without_indexing mdel) = mdel
field (never_indexed mdel) = mdel

unfoldable pub encode_literal : Literal → Option (List ℕ)
encode_literal (incremental mdel) = encode_with_incremental_indexing mdel
encode_literal (without_indexing mdel) = encode_without_indexing mdel
encode_literal (never_indexed mdel) = encode_never_indexed mdel

-- The dynamic table after the field.
abbrev pub remember : DynamicTable → Literal → DynamicTable
remember table (incremental mdel) = push_mdelem_data table mdel
remember table (without_indexing mdel) = table
remember table (never_indexed mdel) = table

abbrev pub type_byte : Literal → ℕ
type_byte (incremental mdel) = 0x40
type_byte (without_indexing mdel) = 0x0
type_byte (never_indexed mdel) = 0x10

abbrev pub literal_bytes : Literal → List ℕ
literal_bytes l = type_byte l ∷ (string_bytes (field l).key ++ string_bytes (field l).value)

-- The name has no upper-case letter.
abbrev pub IsLowerCase : Literal → Type 0
IsLowerCase l = no_upper (field l).key ≡ true

pub encode_mdelem_data_impl-some :
    (mdel : MdelemData) (type : ℕ)
    → mdelem_size mdel < 2 ^ 32
    → encode_mdelem_data_impl mdel type
      ≡ some (type ∷ (string_bytes mdel.key ++ string_bytes mdel.value))
unfolding encode_mdelem_data_impl fill mdelem_size
encode_mdelem_data_impl-some mdel type h =
    let keys = length-string_bytes mdel.key (omega arith) in
    let values = length-string_bytes mdel.value (omega arith) in
    let both = length-append (string_bytes mdel.key) (string_bytes mdel.value) in ground arith

decode_literal-string_bytes :
    (huffman : Huffman) (adds : Bool) (table : DynamicTable) (mdel : MdelemData) (rest : List ℕ)
    → mdelem_size mdel < 2 ^ 32
    → length (string_bytes mdel.key ++ (string_bytes mdel.value ++ rest)) < 2 ^ 32
    → no_upper mdel.key ≡ true
    → decode_literal huffman adds table 0
        (string_bytes mdel.key ++ (string_bytes mdel.value ++ rest))
      ≡ goes_on rest (if adds then push_mdelem_data table mdel else table) (mdel ∷ [])
unfolding decode_literal decode_value parse_string parse_string_key mdelem_size
decode_literal-string_bytes huffman adds table mdel rest size h lower =
    let keys = length-string_bytes mdel.key (omega arith) in
    let values = length-string_bytes mdel.value (omega arith) in
    let outer = length-append (string_bytes mdel.key) (string_bytes mdel.value ++ rest) in
    let inner = length-append (string_bytes mdel.value) rest in
    let key =
      parse_checked-string_bytes huffman no_upper mdel.key (string_bytes mdel.value ++ rest)
        (omega arith) lower in
    let value = parse_checked-string_bytes huffman (λ s. true) mdel.value rest (omega arith) refl in
    rw (key, value) refl

pub decode_round-literal_bytes :
    (huffman : Huffman) (table : DynamicTable) (l : Literal) (rest : List ℕ)
    → mdelem_size (field l) < 2 ^ 32
    → length (string_bytes (field l).key ++ (string_bytes (field l).value ++ rest)) < 2 ^ 32
    → IsLowerCase l
    → decode_round huffman table
        (type_byte l)
        (string_bytes (field l).key ++ (string_bytes (field l).value ++ rest))
      ≡ goes_on rest (remember table l) (field l ∷ [])
unfolding decode_round decode_uint32
decode_round-literal_bytes huffman table (incremental mdel) rest size h lower =
    decode_literal-string_bytes huffman true table mdel rest size h lower
decode_round-literal_bytes huffman table (without_indexing mdel) rest size h lower =
    decode_literal-string_bytes huffman false table mdel rest size h lower
decode_round-literal_bytes huffman table (never_indexed mdel) rest size h lower =
    decode_literal-string_bytes huffman false table mdel rest size h lower

-- The slices of a header block, joined.
abbrev pub join : Option (List ℕ) → Option (List ℕ) → Option (List ℕ)
join (some xs) (some ys) = some (xs ++ ys)
join (some xs) none = none
join none ys = none

abbrev pub encode_literals : List Literal → Option (List ℕ)
encode_literals [] = some []
encode_literals (l ∷ ls) = join (encode_literal l) (encode_literals ls)

abbrev pub remember_all : DynamicTable → List Literal → DynamicTable
remember_all table [] = table
remember_all table (l ∷ ls) = remember_all (remember table l) ls

-- The bytes of the block: for each field the type, then the name and the value, each behind its length.
abbrev pub block_bytes : List Literal → List ℕ
block_bytes [] = []
block_bytes (l ∷ ls) = literal_bytes l ++ block_bytes ls

-- Names in lower case, and fields of less than 2^32 bytes.
abbrev pub IsSendable : Literal → Type 0
IsSendable l = IsLowerCase l × (mdelem_size (field l) < 2 ^ 32)

encode_literal-some :
    (l : Literal) → mdelem_size (field l) < 2 ^ 32 → encode_literal l ≡ some (literal_bytes l)
unfolding encode_literal encode_with_incremental_indexing encode_without_indexing
    encode_never_indexed
encode_literal-some (incremental mdel) h = encode_mdelem_data_impl-some mdel 0x40 h
encode_literal-some (without_indexing mdel) h = encode_mdelem_data_impl-some mdel 0x0 h
encode_literal-some (never_indexed mdel) h = encode_mdelem_data_impl-some mdel 0x10 h

encode_literals-some :
    (ls : List Literal) → All IsSendable ls → encode_literals ls ≡ some (block_bytes ls)
encode_literals-some [] h = refl
encode_literals-some (l ∷ ls) h = rw (encode_literal-some l h.0.1, encode_literals-some ls h.1) refl

decode_rounds-block_bytes :
    (huffman : Huffman) (ls : List Literal) (fuel : ℕ) (table : DynamicTable)
    (headers : List MdelemData)
    → All IsSendable ls
    → length (block_bytes ls) ≤ fuel
    → length (block_bytes ls) < 2 ^ 32
    → decode_rounds huffman fuel (block_bytes ls) table headers
      ≡ returns 0 (remember_all table ls) (headers ++ map field ls)
unfolding decode_rounds
decode_rounds-block_bytes huffman [] fuel table headers h enough fits =
    ap (returns 0 table) (sym (append-nil headers))
decode_rounds-block_bytes huffman (l ∷ ls) zero table headers h enough fits = absurd (omega arith)
decode_rounds-block_bytes huffman (l ∷ ls) (suc fuel) table headers h enough fits =
    let ks = string_bytes (field l).key in
    let vs = string_bytes (field l).value in
    let more = block_bytes ls in
    let split = append_assoc ks vs more in
    let size = length-append (ks ++ vs) more in
    let whole = ap {B = ℕ} length split in
    rw (split) (
      rw (decode_rounds, decode_round-literal_bytes huffman table l more h.0.1 (omega arith) h.0.0)
        (decode_rounds-block_bytes huffman ls fuel (remember table l) (headers ++ (field l ∷ []))
            h.1 (omega arith) (omega arith)
          ∙ ap (returns 0 (remember_all (remember table l) ls))
              (append_assoc headers (field l ∷ []) (map field ls))))

-- A header block of literal fields, each with incremental indexing, without or never indexed, in any
-- order, is encoded, in slices of the sizes computed for them, and decoded without an error as the
-- same fields in the same order, whatever the Huffman code, with those of the first kind pushed to
-- the dynamic table in order; for names without upper-case letters, fields of less than 2^32 bytes
-- and a block of less than 2^32 bytes.
pub decode_headers-encode_literals :
    (huffman : Huffman) (ls : List Literal) (table : DynamicTable)
    → All IsSendable ls
    → length (block_bytes ls) < 2 ^ 32
    → (encode_literals ls ≡ some (block_bytes ls))
      × (decode_headers huffman (block_bytes ls) table
          ≡ returns 0 (remember_all table ls) (map field ls))
unfolding decode_headers
decode_headers-encode_literals huffman ls table h fits = (
  encode_literals-some ls h,
  decode_rounds-block_bytes huffman ls (length (block_bytes ls)) table [] h (omega arith) fits,
)
