-- ===== src/Hpack/Compressor.antt =====
-- src/hpack/send_record.cc: the compressor of the sending side. Of the decoder's table at the other
-- end it keeps the sizes of the entries, in a ring, and in 64 slots the fields that it can refer to;
-- `index` counts the entries ever added. The hash of a name is a parameter. `none`: an assertion fails.
pub mod Sync
pub mod Evict
pub mod Ring
pub mod Add
pub mod Search
pub mod Step
pub mod Correct
use libhttp.Prelude.{
  ℕ, zero, suc, ◌+◌, ◌-◌, ◌*◌, ◌/◌, ◌%◌, ◌^◌, min, max, Bool, true, false, not, ◌&&◌, ◌||◌, List,
  [], ◌∷◌, Option, some, none, length, get_or, set, replicate, drop, if◌then◌else◌, ltb, leb, ◌==◌,
  bit_and,
}
use libhttp.Slice.{slice_eq}
use libhttp.SliceBuffer.{SliceBuffer, add_slice}
use libhttp.Hpack.{MdelemData}
use libhttp.Hpack.Dynamic.{mdelem_eq}
use libhttp.Hpack.Encode.{
  encode_index, encode_with_incremental_indexing, encode_without_indexing,
  encode_without_indexing_key,
}
use libhttp.Hpack.Static.{standard_count, full_match_static_mdelem_index, check_key_exists}

pub record SendRecord : Type 0 where
  pub mdel : MdelemData
  pub index : ℕ

pub record Compressor : Type 0 where
  pub max_table_size : ℕ
  pub max_table_elems : ℕ
  pub cap_table_elems : ℕ
  pub max_usable_size : ℕ
  pub tail_remote_index : ℕ
  pub table_size : ℕ
  pub table_elems : ℕ
  pub table_elem_size : List ℕ
  pub entries : List SendRecord

-- `mdelem_kv_hash`
abbrev pub Hash : Type 0
Hash = List ℕ → ℕ

abbrev pub no_mdelem : MdelemData
no_mdelem = record { key = []; value = [] }

abbrev pub no_record : SendRecord
no_record = record { mdel = no_mdelem; index = 0 }

abbrev pub hash_fragment_2 : ℕ → ℕ
hash_fragment_2 x = bit_and (x / 2 ^ 6) 63

abbrev pub hash_fragment_3 : ℕ → ℕ
hash_fragment_3 x = bit_and (x / 2 ^ 12) 63

abbrev pub slot : List SendRecord → ℕ → SendRecord
slot table i = get_or table i no_record

unfoldable pub table_empty_at : List SendRecord → ℕ → Bool
table_empty_at table i = mdelem_eq (slot table i).mdel no_mdelem

unfoldable pub full_matches : List SendRecord → MdelemData → ℕ → Bool
full_matches table element i = mdelem_eq element (slot table i).mdel

unfoldable pub set_index : List SendRecord → ℕ → MdelemData → ℕ → List SendRecord
set_index table i element hpack_index = set table i (record { mdel = element; index = hpack_index })

unfoldable pub update_index : List SendRecord → ℕ → ℕ → List SendRecord
update_index table i hpack_index =
    set table i (record { mdel = (slot table i).mdel; index = hpack_index })

pub data Match : Type 0 where
  not_match : Match
  full_match key_match : ℕ → Match

-- The slot's name is that of the field.
unfoldable pub key_matches : List SendRecord → MdelemData → ℕ → Bool
unfolding table_empty_at
key_matches table mdel i = not (table_empty_at table i) && slice_eq (slot table i).mdel.key mdel.key

-- The older of two candidates that the decoder still has.
unfoldable pub choose : ℕ → ℕ → ℕ → ℕ
choose tail a b =
    if ltb tail (min a b) then min a b else if ltb tail (max a b) then max a b else tail

unfoldable pub get_matching_index : Compressor → MdelemData → ℕ → Match
get_matching_index c mdel key_hash =
    let first = hash_fragment_2 key_hash in
    let second = hash_fragment_3 key_hash in
    let match_a = key_matches c.entries mdel first in
    let match_b = key_matches c.entries mdel second in
    if table_empty_at c.entries first && table_empty_at c.entries second
    then not_match
    else if full_matches c.entries mdel first
    then full_match (slot c.entries first).index
    else if full_matches c.entries mdel second
    then full_match (slot c.entries second).index
    else if not match_a && not match_b
    then not_match
    else key_match (
        choose c.tail_remote_index (if match_a then (slot c.entries first).index else 0)
          (if match_b then (slot c.entries second).index else 0))

unfoldable pub replace_older_index : List SendRecord → MdelemData → ℕ → ℕ → ℕ → List SendRecord
replace_older_index table value a b new_index =
    set_index table (if ltb (slot table a).index (slot table b).index then a else b) value new_index

unfoldable pub update_add_or_evict : List SendRecord → MdelemData → ℕ → ℕ → List SendRecord
update_add_or_evict table value value_hash new_index =
    let first = hash_fragment_2 value_hash in
    let second = hash_fragment_3 value_hash in
    if full_matches table value first
    then update_index table first new_index
    else if table_empty_at table first
    then set_index table first value new_index
    else if full_matches table value second
    then update_index table second new_index
    else if table_empty_at table second
    then set_index table second value new_index
    else replace_older_index table value first second new_index

-- The size at a position of the ring.
abbrev pub size_at : Compressor → ℕ → ℕ
size_at c index = get_or c.table_elem_size (index % c.cap_table_elems) 0

unfoldable pub evict_entry : Compressor → Option Compressor
evict_entry c =
    let tail = (c.tail_remote_index + 1) % 2 ^ 32 in
    if (ltb 0 tail && leb (size_at c tail) c.table_size) && ltb 0 c.table_elems
    then some (record c {
      tail_remote_index = tail;
      table_size = c.table_size - size_at c tail;
      table_elems = c.table_elems - 1;
    })
    else none

-- `while (table_size + elem_size > limit) evict_entry`. An entry goes in each round, and with no entry
-- left the assertion of `evict_entry` fails: that is what it is to run out of fuel.
unfoldable pub evict_until : ℕ → ℕ → ℕ → Compressor → Option Compressor
evict_until zero elem_size limit c = if ltb limit (c.table_size + elem_size) then none else some c
evict_until (suc fuel) elem_size limit c = elim (ltb limit (c.table_size + elem_size)) [
  | true ↦ elim (evict_entry c) [ none ↦ none | some d ↦ evict_until fuel elem_size limit d ]
  | false ↦ some c
]

abbrev pub evict_loop : ℕ → ℕ → Compressor → Option Compressor
evict_loop elem_size limit c = evict_until c.table_elems elem_size limit c

-- The write of the size, once there is room.
unfoldable pub append_elem : Compressor → ℕ → ℕ → Option (ℕ × Compressor)
append_elem c elem_size new_index =
    if ltb c.table_elems c.max_table_elems
    then some (
      new_index,
      record c {
        table_elem_size =
            set c.table_elem_size (new_index % c.cap_table_elems) (elem_size % 2 ^ 16);
        table_size = (c.table_size + elem_size) % 2 ^ 32;
        table_elems = c.table_elems + 1;
      },
    )
    else none

-- The index is 0 when the element is not added.
unfoldable pub prepare_space_for_new_elem : Compressor → ℕ → Option (ℕ × Compressor)
prepare_space_for_new_elem c elem_size =
    let new_index = (c.tail_remote_index + c.table_elems + 1) % 2 ^ 32 in
    if not (ltb elem_size 65536)
    then none
    else if ltb c.max_table_size elem_size
    then elim (evict_loop 0 0 c) [ none ↦ none | some d ↦ some (0, d) ]
    else elim (evict_loop elem_size c.max_table_size c) [
      | none ↦ none
      | some d ↦ append_elem d elem_size new_index
    ]

unfoldable pub add_elem : Compressor → MdelemData → ℕ → ℕ → Option Compressor
add_elem c elem elem_size key_hash = elim (prepare_space_for_new_elem c elem_size) [
  | none ↦ none
  | some (new_index, d) ↦
      if new_index == 0
      then some d
      else some (record d { entries = update_add_or_evict d.entries elem key_hash new_index })
]

unfoldable pub dynidx : Compressor → ℕ → ℕ
dynidx c elem_index =
    (1 + standard_count + c.tail_remote_index + c.table_elems + 2 ^ 32 - elem_index) % 2 ^ 32

abbrev pub base64_tail : ℕ → ℕ
base64_tail zero = 0
base64_tail (suc zero) = 2
base64_tail (suc (suc n)) = 3

unfoldable pub get_base64_encoded_size : ℕ → ℕ
get_base64_encoded_size raw_length = raw_length / 3 * 4 + base64_tail (raw_length % 3)

unfoldable pub grpc_key_is_binary_header : List ℕ → Bool
grpc_key_is_binary_header buf =
    if ltb (length buf) 5
    then false
    else slice_eq (drop (length buf - 4) buf) (45 ∷ 98 ∷ 105 ∷ 110 ∷ [])

unfoldable pub get_size_in_hpack_table : MdelemData → Bool → ℕ
get_size_in_hpack_table elem use_true_binary_metadata =
    if grpc_key_is_binary_header elem.key
    then 32
      + length elem.key
      + (if use_true_binary_metadata
          then length elem.value + 1
          else get_base64_encoded_size (length elem.value))
    else 32 + length elem.key + length elem.value

-- The bytes of a representation, beside the compressor after it.
abbrev pub with_slice : Option (List ℕ) → Compressor → Option (List ℕ × Compressor)
with_slice none c = none
with_slice (some s) c = some (s, c)

-- The field is not known to the decoder.
unfoldable pub encode_new : Hash → Compressor → MdelemData → Bool → Option (List ℕ × Compressor)
encode_new hash c mdel use_true_binary_metadata =
    if check_key_exists mdel.key
    then elim (add_elem c mdel (get_size_in_hpack_table mdel use_true_binary_metadata)
        (hash mdel.key)) [
          | none ↦ none
          | some d ↦ with_slice (encode_with_incremental_indexing mdel) d
        ]
    else with_slice (encode_without_indexing mdel) c

-- What the search found, with an index that the decoder still has.
unfoldable pub encode_found :
    Hash → Compressor → MdelemData → Bool → Match → Option (List ℕ × Compressor)
encode_found hash c mdel use_true_binary_metadata not_match =
    encode_new hash c mdel use_true_binary_metadata
encode_found hash c mdel use_true_binary_metadata (full_match index) =
    if leb index c.tail_remote_index
    then encode_new hash c mdel use_true_binary_metadata
    else with_slice (encode_index (dynidx c index)) c
encode_found hash c mdel use_true_binary_metadata (key_match index) =
    if leb index c.tail_remote_index
    then encode_new hash c mdel use_true_binary_metadata
    else with_slice (encode_without_indexing_key mdel (dynidx c index)) c

unfoldable pub hpack_encode_header :
    Hash → Compressor → MdelemData → Bool → Option (List ℕ × Compressor)
hpack_encode_header hash c mdel use_true_binary_metadata =
    encode_found hash c mdel use_true_binary_metadata (get_matching_index c mdel (hash mdel.key))

-- One round of the loop over the fields.
unfoldable pub encode_header : Hash → Compressor → MdelemData → Bool → Option (List ℕ × Compressor)
encode_header hash c md use_true_binary_metadata =
    let index = full_match_static_mdelem_index md in
    if not (index == 0)
    then with_slice (encode_index index) c
    else hpack_encode_header hash c md use_true_binary_metadata

unfoldable pub compressor_encode_headers :
    Hash → Compressor → List MdelemData → SliceBuffer → Bool → Option (SliceBuffer × Compressor)
compressor_encode_headers hash c [] output use_true_binary_metadata = some (output, c)
compressor_encode_headers hash c (md ∷ metadata) output use_true_binary_metadata =
    elim (encode_header hash c md use_true_binary_metadata) [
      | none ↦ none
      | some (s, d) ↦
          compressor_encode_headers hash d metadata (add_slice output s) use_true_binary_metadata
    ]

abbrev pub elems_for_bytes : ℕ → ℕ
elems_for_bytes bytes = (bytes + 31) % 2 ^ 32 / 32

-- The memory is there.
unfoldable pub compressor_init : Compressor
compressor_init = record {
  max_table_size = 4096;
  max_table_elems = elems_for_bytes 4096;
  cap_table_elems = elems_for_bytes 4096;
  max_usable_size = 4096;
  tail_remote_index = 0;
  table_size = 0;
  table_elems = 0;
  table_elem_size = replicate (elems_for_bytes 4096) 0;
  entries = replicate 64 no_record;
}

-- The loop that copies the sizes, with `i` counting up to `table_elems`.
unfoldable pub copy_sizes : ℕ → Compressor → ℕ → ℕ → List ℕ → List ℕ
copy_sizes zero c new_cap i sizes = sizes
copy_sizes (suc left) c new_cap i sizes =
    let ofs = (c.tail_remote_index + i + 1) % 2 ^ 32 in
    copy_sizes left c new_cap (i + 1) (set sizes (ofs % new_cap) (size_at c ofs))

unfoldable pub rebuild_elems : Compressor → ℕ → Compressor
rebuild_elems c new_cap = if ltb new_cap c.table_elems then c else record c {
  cap_table_elems = new_cap;
  table_elem_size = copy_sizes c.table_elems c new_cap 0 (replicate new_cap 0);
}

-- The capacity that goes with a new maximum.
unfoldable pub fit_capacity : Compressor → Compressor
fit_capacity c =
    if ltb c.cap_table_elems c.max_table_elems
    then rebuild_elems c (max c.max_table_elems (2 * c.cap_table_elems % 2 ^ 32))
    else if ltb c.max_table_elems (c.cap_table_elems / 3)
    then (if max c.max_table_elems 16 == c.cap_table_elems
        then c
        else rebuild_elems c (max c.max_table_elems 16))
    else c

unfoldable pub compressor_set_max_table_size : Compressor → ℕ → Option Compressor
compressor_set_max_table_size c size =
    let max_table_size = min size c.max_usable_size in
    if max_table_size == c.max_table_size then some c else elim (evict_loop 0 max_table_size c) [
      | none ↦ none
      | some d ↦ some (
          fit_capacity (record d {
            max_table_size = max_table_size;
            max_table_elems = elems_for_bytes max_table_size;
          }))
    ]

unfoldable pub compressor_set_max_usable_size : Compressor → ℕ → Option Compressor
compressor_set_max_usable_size c max_table_size =
    compressor_set_max_table_size (record c { max_usable_size = max_table_size })
      (min c.max_table_size max_table_size)
