-- ===== src/Hpack/Encode.antt =====
-- The representations that src/hpack/encode.cc writes. `none`: the writes do not fill the slice.
use libhttp.Prelude.{ℕ, ◌+◌, ◌%◌, ◌^◌, List, ◌∷◌, ◌++◌, Option, length, take}
use mathlib.Core.Option
use libhttp.Slice.{fill}
use libhttp.Hpack.{MdelemData, mdelem_size}
use libhttp.Hpack.Integer.{
  int_mask, uint16_encode_impl, uint16_encode_length, encode_uint16, or_first,
}

-- A length, and as many of the bytes.
abbrev pub string_bytes : List ℕ → List ℕ
string_bytes s = uint16_encode_impl (length s % 2 ^ 32) (int_mask 7) ++ take (length s % 2 ^ 32) s

unfoldable pub encode_mdelem_data_impl : MdelemData → ℕ → Option (List ℕ)
encode_mdelem_data_impl mdel type =
    let key_len_size = uint16_encode_length (length mdel.key % 2 ^ 32) (int_mask 7) in
    let value_len_size = uint16_encode_length (length mdel.value % 2 ^ 32) (int_mask 7) in
    fill (1 + key_len_size + value_len_size + mdelem_size mdel)
      (type ∷ (string_bytes mdel.key ++ string_bytes mdel.value))

unfoldable pub encode_index : ℕ → Option (List ℕ)
encode_index index = Option.map (or_first 0x80) (encode_uint16 index (int_mask 7))

unfoldable pub encode_update_max_size : ℕ → Option (List ℕ)
encode_update_max_size max_size = Option.map (or_first 0x20) (encode_uint16 max_size (int_mask 5))

unfoldable pub encode_with_incremental_indexing : MdelemData → Option (List ℕ)
encode_with_incremental_indexing mdel = encode_mdelem_data_impl mdel 0x40

-- The overload with the index of the name.
unfoldable pub encode_without_indexing_key : MdelemData → ℕ → Option (List ℕ)
encode_without_indexing_key mdel key_index =
    let key_index_size = uint16_encode_length key_index (int_mask 4) in
    let value_len_size = uint16_encode_length (length mdel.value % 2 ^ 32) (int_mask 7) in
    fill (key_index_size + value_len_size + length mdel.value % 2 ^ 32)
      (uint16_encode_impl key_index (int_mask 4) ++ string_bytes mdel.value)

unfoldable pub encode_without_indexing : MdelemData → Option (List ℕ)
encode_without_indexing mdel = encode_mdelem_data_impl mdel 0x0

unfoldable pub encode_never_indexed : MdelemData → Option (List ℕ)
encode_never_indexed mdel = encode_mdelem_data_impl mdel 0x10
