-- ===== src/Hpack/Dynamic.antt =====
-- The dynamic table: src/hpack/dynamic_metadata.cc. The front of the deque, the newest entry, is the
-- head of the list.
pub mod Loop
pub mod Eviction
pub mod Lookup
use libhttp.Prelude.{
  ℕ, zero, suc, ◌+◌, ◌-◌, ◌%◌, ◌^◌, Bool, true, false, ◌&&◌, List, [], ◌∷◌, Option, none, some,
  length, get_elem?, if◌then◌else◌, ltb,
}
use libhttp.Slice.{slice_eq}
use libhttp.Hpack.{MdelemData, mdelem_size}
use mathlib.Core.Option

pub record DynamicTable : Type 0 where
  pub max_table_size_limit : ℕ
  pub max_table_size : ℕ
  pub current_table_size : ℕ
  pub entries : List MdelemData

unfoldable pub dynamic_table_init : ℕ → DynamicTable
dynamic_table_init default_max_size = record {
  max_table_size_limit = default_max_size;
  max_table_size = default_max_size;
  current_table_size = 0;
  entries = [];
}

-- `std::deque::back` and `pop_back`.
unfoldable pub back : List MdelemData → Option MdelemData
back [] = none
back (e ∷ []) = some e
back (e ∷ f ∷ es) = back (f ∷ es)

unfoldable pub pop_back : List MdelemData → List MdelemData
pop_back [] = []
pop_back (e ∷ []) = []
pop_back (e ∷ f ∷ es) = e ∷ pop_back (f ∷ es)

-- The body of the loop: `_current_table_size -= element_size + 32` on `uint32_t`.
unfoldable pub evict_back : DynamicTable → MdelemData → DynamicTable
evict_back t entry = record t {
  current_table_size =
      (t.current_table_size + 2 ^ 32 - (mdelem_size entry % 2 ^ 32 + 32) % 2 ^ 32) % 2 ^ 32;
  entries = pop_back t.entries;
}

-- The loop takes an entry off in each round, so their number is enough fuel.
unfoldable pub adjust_loop : ℕ → DynamicTable → DynamicTable
adjust_loop zero t = t
adjust_loop (suc fuel) t = elim (ltb t.max_table_size t.current_table_size) [
  | true ↦ elim (back t.entries) [ none ↦ t | some entry ↦ adjust_loop fuel (evict_back t entry) ]
  | false ↦ t
]

unfoldable pub adjust_dynamic_table_size : DynamicTable → DynamicTable
adjust_dynamic_table_size t = adjust_loop (length t.entries) t

unfoldable pub push_mdelem_data : DynamicTable → MdelemData → DynamicTable
push_mdelem_data t md = adjust_dynamic_table_size (record t {
  current_table_size = ((t.current_table_size + mdelem_size md % 2 ^ 32) % 2 ^ 32 + 32) % 2 ^ 32;
  entries = md ∷ t.entries;
})

unfoldable pub update_max_table_size_limit : DynamicTable → ℕ → DynamicTable
update_max_table_size_limit t limit = record t { max_table_size_limit = limit }

unfoldable pub update_max_table_size : DynamicTable → ℕ → DynamicTable
update_max_table_size t size = adjust_dynamic_table_size (record t { max_table_size = size })

unfoldable pub entry_count : DynamicTable → ℕ
entry_count t = length t.entries

-- `none` is the result false.
unfoldable pub get_mdelem_data : DynamicTable → ℕ → Option MdelemData
get_mdelem_data t index = get_elem? t.entries index

unfoldable pub mdelem_eq : MdelemData → MdelemData → Bool
mdelem_eq md1 md2 = slice_eq md1.key md2.key && slice_eq md1.value md2.value

unfoldable pub find_index : List MdelemData → MdelemData → Option ℕ
find_index [] mdel = none
find_index (e ∷ es) mdel =
    let rest = Option.map suc (find_index es mdel) in if mdelem_eq mdel e then some 0 else rest

-- `none` is the result -1.
unfoldable pub get_mdelem_data_index : DynamicTable → MdelemData → Option ℕ
unfolding find_index
get_mdelem_data_index t mdel = find_index t.entries mdel
