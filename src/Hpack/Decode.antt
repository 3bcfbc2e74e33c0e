-- ===== src/Hpack/Decode.antt =====
-- The strings of src/hpack/decode.cc and `decode_headers` of src/hpack/hpack.cc. A pointer is the list
-- of the bytes from it to the end of the block. The Huffman decoder is a parameter: given the size of
-- its output buffer and its input, it returns the bytes decoded, or -1 (`none`).
pub mod Strings
pub mod Literals
pub mod Indexed
use libhttp.Prelude.{
  ℕ, zero, suc, ◌+◌, ◌-◌, ◌*◌, ◌%◌, ◌^◌, Bool, true, false, not, ◌&&◌, List, [], ◌∷◌, ◌++◌, Option,
  some, none, length, take, drop, if◌then◌else◌, ltb, leb, ◌==◌, bit_and,
}
use libhttp.Types.{Http2ErrorCode, error_code}
use libhttp.Hpack.{MdelemData, Decoded, at, nullptr, outside, ◌>>=◌}
use libhttp.Hpack.Integer.{int_mask, decode_uint32}
use libhttp.Hpack.Static.{standard_count, static_mdelem}
use libhttp.Hpack.Dynamic.{DynamicTable, get_mdelem_data, push_mdelem_data, update_max_table_size}

abbrev pub Huffman : Type 0
Huffman = ℕ → List ℕ → Option (List ℕ)

-- `isupper` in the C locale.
unfoldable pub is_upper : ℕ → Bool
is_upper c = leb 65 c && leb c 90

-- `outside`: the decoder is handed bytes behind the end.
unfoldable pub decode_string : Huffman → List ℕ → ℕ → Decoded (List ℕ × List ℕ)
decode_string huffman src src_len =
    if ltb (length src) src_len then outside else elim (huffman (src_len * 3) (take src_len src)) [
      | none ↦ nullptr
      | some value ↦ at (value, drop src_len src)
    ]

-- What the two parsers share: `check` is what the bytes of a plain string have to pass.
unfoldable pub parse_checked : Huffman → (List ℕ → Bool) → List ℕ → Decoded (List ℕ × List ℕ)
parse_checked huffman check [] = nullptr
parse_checked huffman check (b ∷ bs) = do
  (str_len, rest) ← decode_uint32 (b ∷ bs) (int_mask 7)
  if not (bit_and b 0x80 == 0)
      then decode_string huffman rest str_len
      else if leb str_len (length rest % 2 ^ 32)
      then (if check (take str_len rest)
          then at (take str_len rest, drop str_len rest)
          else nullptr)
      else nullptr

unfoldable pub parse_string : Huffman → List ℕ → Decoded (List ℕ × List ℕ)
parse_string huffman buf = parse_checked huffman (λ s. true) buf

-- The loop over the bytes of a name.
unfoldable pub no_upper : List ℕ → Bool
no_upper [] = true
no_upper (c ∷ cs) = not (is_upper c) && no_upper cs

unfoldable pub parse_string_key : Huffman → List ℕ → Decoded (List ℕ × List ℕ)
parse_string_key huffman buf = parse_checked huffman no_upper buf

-- One round of the loop: what is left of the block, the table and the fields decoded; or the error
-- that is returned.
pub data Round : Type 0 where
  goes_on : List ℕ → DynamicTable → List MdelemData → Round
  fails : Http2ErrorCode → Round
  overruns : Round

-- `buf` after a call, or what a null pointer makes of it.
abbrev pub on_null {ℓ} : {A : Type ℓ} → Http2ErrorCode → Decoded A → (A → Round) → Round
on_null code (at a) k = k a
on_null code nullptr k = fails code
on_null code outside k = overruns

-- Index 1 to 61 is the static table, the dynamic one follows.
unfoldable pub entry_at : DynamicTable → ℕ → Option MdelemData
entry_at table int_value =
    if leb int_value standard_count
    then some (static_mdelem int_value)
    else get_mdelem_data table (int_value - (standard_count + 1))

abbrev pub with_entry : Option MdelemData → (MdelemData → Round) → Round
with_entry none k = fails Http2ErrorCode.compression_error
with_entry (some e) k = k e

unfoldable pub decode_value : Huffman → Bool → DynamicTable → List ℕ → List ℕ → Round
decode_value huffman add_to_dynamic_table table key buf =
    on_null Http2ErrorCode.compression_error (parse_string huffman buf) (λ (value, rest).
      let mdel : MdelemData = record { key = key; value = value } in
      goes_on rest (if add_to_dynamic_table then push_mdelem_data table mdel else table)
        (mdel ∷ []))

unfoldable pub decode_literal : Huffman → Bool → DynamicTable → ℕ → List ℕ → Round
decode_literal huffman add_to_dynamic_table table int_value buf =
    if int_value == 0
    then on_null Http2ErrorCode.protocol_error (parse_string_key huffman buf)
        (λ (key, rest). decode_value huffman add_to_dynamic_table table key rest)
    else with_entry (entry_at table int_value)
        (λ e. decode_value huffman add_to_dynamic_table table e.key buf)

unfoldable pub decode_round : Huffman → DynamicTable → ℕ → List ℕ → Round
decode_round huffman table b bs =
    if not (bit_and b 0x80 == 0)
    then on_null Http2ErrorCode.compression_error (decode_uint32 (b ∷ bs) (int_mask 7))
        (λ (int_value, rest).
          if int_value == 0
          then fails Http2ErrorCode.compression_error
          else with_entry (entry_at table int_value) (λ e. goes_on rest table (e ∷ [])))
    else if not (bit_and b 0x40 == 0)
    then on_null Http2ErrorCode.compression_error (decode_uint32 (b ∷ bs) (int_mask 6))
        (λ (int_value, rest). decode_literal huffman true table int_value rest)
    else if not (bit_and b 0x20 == 0)
    then on_null Http2ErrorCode.compression_error (decode_uint32 (b ∷ bs) (int_mask 5))
        (λ (int_value, rest).
          if ltb table.max_table_size_limit int_value
          then fails Http2ErrorCode.compression_error
          else goes_on rest (update_max_table_size table int_value) [])
    else on_null Http2ErrorCode.compression_error (decode_uint32 (b ∷ bs) (int_mask 4))
        (λ (int_value, rest). decode_literal huffman false table int_value rest)

-- What the function leaves: its result, the table and the fields decoded. `overrun`: a read behind the
-- end; `unfinished`: the fuel ran out.
pub data Outcome : Type 0 where
  returns : ℕ → DynamicTable → List MdelemData → Outcome
  overrun : Outcome
  unfinished : Outcome

unfoldable pub decode_rounds : Huffman → ℕ → List ℕ → DynamicTable → List MdelemData → Outcome
decode_rounds huffman fuel [] table headers =
    returns (error_code Http2ErrorCode.no_error) table headers
decode_rounds huffman zero (b ∷ bs) table headers = unfinished
decode_rounds huffman (suc fuel) (b ∷ bs) table headers = elim (decode_round huffman table b bs) [
  | goes_on rest t decoded ↦ decode_rounds huffman fuel rest t (headers ++ decoded)
  | fails code ↦ returns (error_code code) table headers
  | overruns ↦ overrun
]

-- A round takes a byte at least, so the length is enough fuel.
unfoldable pub decode_headers : Huffman → List ℕ → DynamicTable → Outcome
decode_headers huffman buf table = decode_rounds huffman (length buf) buf table []
