-- ===== src/Hpack/Dynamic/Lookup.antt =====
-- The two lookups of the dynamic table: by index, and of the index of an entry.
use libhttp.Prelude.{
  ℕ, zero, suc, ◌<◌, ◌≡◌, ◌≢◌, refl, ap, sym, ◌≤◌, ◌↔◌, inl, inr, true, List, [], ◌∷◌, Option, none,
  some, length, get_elem?, Bool-cases, arith,
}
use mathlib.Core.Option
use libhttp.Slice.{slice_eq_iff}
use libhttp.Hpack.{MdelemData}
use libhttp.Hpack.Dynamic.{
  DynamicTable, mdelem_eq, find_index, entry_count, get_mdelem_data, get_mdelem_data_index,
}

pub mdelem_eq_iff : (md1 md2 : MdelemData) → (mdelem_eq md1 md2 ≡ true) ↔ (md1 ≡ md2)
unfolding mdelem_eq
mdelem_eq_iff md1 md2 =
    let keys = slice_eq_iff md1.key md2.key in
    let values = slice_eq_iff md1.value md2.value in
    (
      (λ h.
          let key : md1.key ≡ md2.key = ground (arith, keys, values) in
          let value : md1.value ≡ md2.value = ground (arith, keys, values) in
          λ i. record { key = key i; value = value i }),
      (λ h.
          let key : md1.key ≡ md2.key = ap (λ md. md.key) h in
          let value : md1.value ≡ md2.value = ap (λ md. md.value) h in
          ground (arith, keys, values)),
    )

-- What a search in a list promises: an index at which the entry stands, and at no index before it,
-- or that it stands at none.
abbrev Finds : List MdelemData → MdelemData → Option ℕ → Type 0
Finds es mdel (some i) =
    (get_elem? es i ≡ some mdel) × ((j : ℕ) → j < i → get_elem? es j ≢ some mdel)
Finds es mdel none = (j : ℕ) → get_elem? es j ≢ some mdel

Finds-there : (es : List MdelemData) (e mdel : MdelemData) → mdel ≡ e → Finds (e ∷ es) mdel (some 0)
Finds-there es e mdel h = (ap some (sym h), λ j below. absurd (omega arith))

absent-there :
    (es : List MdelemData) (e mdel : MdelemData) (j : ℕ)
    → mdel ≢ e
    → ((k : ℕ) → j ≡ suc k → get_elem? es k ≢ some mdel)
    → get_elem? (e ∷ es) j ≢ some mdel
absent-there es e mdel zero other h = λ here. other (cc here)
absent-there es e mdel (suc j) other h = h j refl

Finds-later :
    (es : List MdelemData) (e mdel : MdelemData) (found : Option ℕ)
    → mdel ≢ e
    → Finds es mdel found
    → Finds (e ∷ es) mdel (Option.map suc found)
Finds-later es e mdel none other h = λ j. absent-there es e mdel j other (λ k is. h k)
Finds-later es e mdel (some i) other h =
    (h.0, λ j below. absent-there es e mdel j other (λ k is. h.1 k (omega arith)))

find_index-Finds : (es : List MdelemData) (mdel : MdelemData) → Finds es mdel (find_index es mdel)
unfolding find_index
find_index-Finds [] mdel = λ j. λ h. cc h
find_index-Finds (e ∷ es) mdel = elim (Bool-cases (mdelem_eq mdel e)) [
  | inl same ↦ rw same (Finds-there es e mdel ((mdelem_eq_iff mdel e).0 same))
  | inr other ↦ rw other (
      Finds-later es e mdel (find_index es mdel)
        (λ same. let equal = (mdelem_eq_iff mdel e).1 same in cc (equal, other))
        (find_index-Finds es mdel))
]

-- What the search of the table promises, for the other lookup.
abbrev pub FindsIn : DynamicTable → MdelemData → Option ℕ → Type 0
FindsIn t mdel (some i) =
    (get_mdelem_data t i ≡ some mdel) × ((j : ℕ) → j < i → get_mdelem_data t j ≢ some mdel)
FindsIn t mdel none = (j : ℕ) → get_mdelem_data t j ≢ some mdel

Finds→FindsIn :
    (t : DynamicTable) (mdel : MdelemData) (found : Option ℕ)
    → Finds t.entries mdel found
    → FindsIn t mdel found
unfolding get_mdelem_data
Finds→FindsIn t mdel none h = h
Finds→FindsIn t mdel (some i) h = h

-- `get_mdelem_data_index` returns the least index at which `get_mdelem_data` gives the entry, and -1
-- only if no index does.
pub get_mdelem_data_index-FindsIn :
    (t : DynamicTable) (mdel : MdelemData) → FindsIn t mdel (get_mdelem_data_index t mdel)
unfolding get_mdelem_data_index
get_mdelem_data_index-FindsIn t mdel =
    Finds→FindsIn t mdel (find_index t.entries mdel) (find_index-Finds t.entries mdel)

get_elem?_iff : (es : List MdelemData) (i : ℕ) → (get_elem? es i ≡ none) ↔ (length es ≤ i)
get_elem?_iff [] i = ((λ h. omega arith), (λ h. refl))
get_elem?_iff (e ∷ es) zero = ((λ h. cc h), (λ h. absurd (omega arith)))
get_elem?_iff (e ∷ es) (suc i) =
    ((λ h. omega (arith, (get_elem?_iff es i).0 h)), (λ h. (get_elem?_iff es i).1 (omega arith)))

-- The indices of the table are those below `entry_count`, counted from zero.
pub get_mdelem_data_iff :
    (t : DynamicTable) (index : ℕ) → (get_mdelem_data t index ≡ none) ↔ (entry_count t ≤ index)
unfolding get_mdelem_data entry_count
get_mdelem_data_iff t index = get_elem?_iff t.entries index
