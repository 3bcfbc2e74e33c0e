-- ===== src/Tests/Compression.antt =====
-- The header compression of src/hpack at concrete inputs.
use libhttp.Prelude.{
  ◌<◌, All, length, none, ℕ, ◌+◌, ◌*◌, ◌^◌, ◌%◌, ◌≤◌, ◌≡◌, refl, List, [], ◌∷◌, ◌++◌, some, arith,
}
use libhttp.Hpack.{MdelemData, at, mdelem_size}
use libhttp.Hpack.Integer.{int_mask, decode_uint32, encode_uint16, or_first}
use libhttp.Hpack.Integer.RoundTrip.{decode_uint32-encode_uint16}
use libhttp.Hpack.Integer.Bounds.{Advances, decode_uint32-Advances}
use libhttp.Hpack.Integer.Overflow.{five_groups, fifth_group-truncated}
use libhttp.Hpack.Static.{static_mdelem, static_mdelem_table}
use libhttp.Hpack.Encode.{encode_index, encode_without_indexing_key, encode_update_max_size}
use libhttp.Hpack.Decode.{
  Huffman, no_upper, decode_headers, decode_rounds, decode_round, decode_literal, decode_value,
  entry_at, parse_string, parse_string_key, parse_checked, decode_string, is_upper, returns,
  overrun,
}
use libhttp.Hpack.Decode.Literals.{
  Literal, incremental, never_indexed, IsSendable, encode_literals, block_bytes, remember_all,
  decode_headers-encode_literals,
}
use libhttp.Hpack.Integer.{uint16_encode_impl, uint16_encode_length}
use libhttp.Slice.{fill}
use libhttp.Hpack.Dynamic.{
  DynamicTable, dynamic_table_init, push_mdelem_data, update_max_table_size,
  adjust_dynamic_table_size, adjust_loop, evict_back, back, pop_back, get_mdelem_data,
  get_mdelem_data_index, entry_count, update_max_table_size_limit,
}
use libhttp.Hpack.Dynamic.Loop.{IsAccounted}
use libhttp.Hpack.Dynamic.Eviction.{
  IsPushed, IsResized, push_mdelem_data-IsPushed, update_max_table_size-IsResized,
  push_mdelem_data-too_large,
}
use libhttp.Hpack.Dynamic.Lookup.{FindsIn, get_mdelem_data_index-FindsIn}

decode_uint32-encode_uint16_example :
    (bytes : List ℕ) × (encode_uint16 1337 (int_mask 5) ≡ some bytes)
    × ((rest : List ℕ)
        → decode_uint32 (or_first (2 * 2 ^ 5) bytes ++ rest) (int_mask 5) ≡ at (1337, rest))
decode_uint32-encode_uint16_example =
    decode_uint32-encode_uint16 5 2 1337 (omega arith) (omega arith) (omega arith)

decode_uint32-Advances_example :
    Advances (31 ∷ 154 ∷ 10 ∷ []) 6 (decode_uint32 (31 ∷ 154 ∷ 10 ∷ []) (int_mask 5))
decode_uint32-Advances_example =
    decode_uint32-Advances 5 31 (154 ∷ 10 ∷ []) (omega arith) (omega arith)

fifth_group-truncated_example :
    (decode_uint32
        (int_mask 7 ∷ (0 + 128) ∷ (0 + 128) ∷ (0 + 128) ∷ (0 + 128) ∷ 16 ∷ [])
        (int_mask 7)
      ≡ at (five_groups (int_mask 7) 0 0 0 0 (16 % 16), []))
    × (2 ^ 32 ≤ five_groups (int_mask 7) 0 0 0 0 16)
fifth_group-truncated_example =
    fifth_group-truncated 7 0 0 0 0 16 [] (omega arith) (omega arith) (omega arith) (omega arith)
      (omega arith) (omega arith) (omega arith) (omega arith) (omega arith)

abbrev entry_a : MdelemData
entry_a = record { key = 97 ∷ []; value = 49 ∷ [] }

abbrev entry_b : MdelemData
entry_b = record { key = 98 ∷ []; value = 50 ∷ 51 ∷ [] }

abbrev table_a : DynamicTable
table_a = record {
  max_table_size_limit = 4096;
  max_table_size = 60;
  current_table_size = 34;
  entries = entry_a ∷ [];
}

table_a-IsAccounted : IsAccounted table_a
unfolding mdelem_size
table_a-IsAccounted = record { exact = refl; narrow = omega arith }

push_mdelem_data-IsPushed_example : IsPushed table_a entry_b (push_mdelem_data table_a entry_b)
unfolding mdelem_size
push_mdelem_data-IsPushed_example =
    push_mdelem_data-IsPushed table_a entry_b table_a-IsAccounted (omega arith)

update_max_table_size-IsResized_example : IsResized table_a 33 (update_max_table_size table_a 33)
update_max_table_size-IsResized_example =
    update_max_table_size-IsResized table_a 33 table_a-IsAccounted

abbrev small_table : DynamicTable
small_table = record table_a { max_table_size = 34 }

small_table-IsAccounted : IsAccounted small_table
unfolding mdelem_size
small_table-IsAccounted = record { exact = refl; narrow = omega arith }

push_mdelem_data-too_large_test :
    (push_mdelem_data small_table entry_b).entries ≡ []
    × (push_mdelem_data small_table entry_b).current_table_size ≡ 0
unfolding mdelem_size
push_mdelem_data-too_large_test =
    push_mdelem_data-too_large small_table entry_b small_table-IsAccounted (omega arith)
      (omega arith)

get_mdelem_data_index-FindsIn_example :
    FindsIn table_a entry_a (get_mdelem_data_index table_a entry_a)
get_mdelem_data_index-FindsIn_example = get_mdelem_data_index-FindsIn table_a entry_a

evicts_oldest : (push_mdelem_data table_a entry_b).entries ≡ entry_b ∷ []
unfolding push_mdelem_data adjust_dynamic_table_size adjust_loop evict_back back pop_back
    mdelem_size
evicts_oldest = refl

empty_table : entry_count (update_max_table_size_limit (dynamic_table_init 4096) 100) ≡ 0
unfolding entry_count dynamic_table_init update_max_table_size_limit
empty_table = refl

indexed_from_zero : get_mdelem_data table_a 0 ≡ some entry_a
unfolding get_mdelem_data
indexed_from_zero = refl

-- A code that has no word for anything.
abbrev no_huffman : Huffman
no_huffman size src = none

abbrev two_literals : List Literal
two_literals = incremental entry_a ∷ never_indexed entry_b ∷ []

two_literals-IsSendable : All IsSendable two_literals
unfolding no_upper is_upper mdelem_size
two_literals-IsSendable = ((refl, omega arith), ((refl, omega arith), tt))

two_literals_short : length (block_bytes two_literals) < 2 ^ 32
unfolding uint16_encode_impl
two_literals_short = omega arith

decode_headers-encode_literals_example :
    (encode_literals two_literals ≡ some (block_bytes two_literals))
    × (decode_headers no_huffman (block_bytes two_literals) (dynamic_table_init 4096)
        ≡ returns 0 (remember_all (dynamic_table_init 4096) two_literals) (entry_a ∷ entry_b ∷ []))
decode_headers-encode_literals_example =
    decode_headers-encode_literals no_huffman two_literals (dynamic_table_init 4096)
      two_literals-IsSendable two_literals_short

-- `:method: GET`, then a field of the name `:path` and the value `a`.
indexed_block :
    decode_headers no_huffman (0x82 ∷ 0x04 ∷ 0x01 ∷ 97 ∷ []) (dynamic_table_init 4096)
    ≡ returns 0
        (dynamic_table_init 4096)
        (static_mdelem 2 ∷ record { key = (static_mdelem 4).key; value = 97 ∷ [] } ∷ [])
unfolding decode_headers decode_rounds decode_round decode_literal decode_value entry_at
    parse_string parse_checked decode_uint32 static_mdelem static_mdelem_table
indexed_block = refl

-- A Huffman string of five bytes in a block that ends behind one.
huffman_overruns :
    decode_headers no_huffman (0x00 ∷ 0x01 ∷ 97 ∷ 0x85 ∷ 0xff ∷ []) (dynamic_table_init 4096)
    ≡ overrun
unfolding decode_headers decode_rounds decode_round decode_literal decode_value entry_at
    parse_string parse_string_key no_upper is_upper parse_checked decode_uint32 decode_string
huffman_overruns = refl

length_five : decode_uint32 (0x85 ∷ 0xff ∷ []) (int_mask 7) ≡ at (5, 0xff ∷ [])
unfolding decode_uint32
length_five = refl

index_two : encode_index 2 ≡ some (0x82 ∷ [])
unfolding encode_index encode_uint16 uint16_encode_length uint16_encode_impl fill or_first
index_two = refl

size_update : encode_update_max_size 16 ≡ some (0x30 ∷ [])
unfolding encode_update_max_size encode_uint16 uint16_encode_length uint16_encode_impl fill or_first
size_update = refl

named_by_index : encode_without_indexing_key entry_a 4 ≡ some (4 ∷ 1 ∷ 49 ∷ [])
unfolding encode_without_indexing_key uint16_encode_length uint16_encode_impl fill
named_by_index = refl
