-- ===== src/Hpack/Compressor/Search.antt =====
-- The searches of src/hpack/send_record.cc and static_metadata.cc: an index that they give leads, at the
-- decoder's end, to the field looked for, or to one of its name.
use libhttp.Prelude.{
  ℕ, zero, suc, ◌+◌, ◌-◌, ◌^◌, ◌<◌, ◌≤◌, ◌≡◌, ◌⊎◌, inl, inr, refl, sym, ap, ◌∙◌, Bool, true, false,
  not, ◌&&◌, List, [], ◌∷◌, some, length, drop, get_or, get_elem?, if◌then◌else◌, get_elem?-append,
  get_elem?-below, All-get_or, Bool-cases, ltb, leb, ◌==◌, arith,
}
use mathlib.Core.Path.{subst}
use libhttp.Slice.{slice_eq, slice_eq_iff}
use libhttp.Hpack.{MdelemData}
use libhttp.Hpack.Dynamic.{DynamicTable, get_mdelem_data, mdelem_eq}
use libhttp.Hpack.Dynamic.Lookup.{mdelem_eq_iff}
use libhttp.Hpack.Static.{
  standard_count, static_mdelem_table, static_mdelem, index_from, full_match_static_mdelem_index,
}
use libhttp.Hpack.Decode.{entry_at}
use libhttp.Hpack.Compressor.{
  Compressor, SendRecord, slot, no_record, table_empty_at, full_matches, key_matches, choose, Match,
  not_match, full_match, key_match, get_matching_index, dynidx, hash_fragment_2, hash_fragment_3,
}
use libhttp.Hpack.Compressor.Sync.{InSync, IsFresh, length-weights}

get_elem?→get_or :
    (xs : List MdelemData) (i : ℕ) (d : MdelemData) {x : MdelemData}
    → get_elem? xs i ≡ some x
    → get_or xs i d ≡ x
get_elem?→get_or [] i d h = absurd (cc h)
get_elem?→get_or (x ∷ xs) zero d h = cc h
get_elem?→get_or (x ∷ xs) (suc i) d h = get_elem?→get_or xs i d h

-- What the search of the static table finds.
index_from-found :
    (i : ℕ) (es : List MdelemData) (mdel : MdelemData)
    → (index_from i es mdel ≡ 0)
      ⊎ ((k : ℕ) × (index_from i es mdel ≡ i + k) × (get_elem? es k ≡ some mdel))
unfolding index_from mdelem_eq
index_from-found i [] mdel = inl refl
index_from-found i (e ∷ es) mdel =
    elim (Bool-cases (slice_eq e.key mdel.key && slice_eq e.value mdel.value)) [
      | inl same ↦
          let equal : e ≡ mdel = (mdelem_eq_iff e mdel).0 same in
          inr (0, rw same (omega arith), ap some equal)
      | inr other ↦ elim (index_from-found (suc i) es mdel) [
        | inl none_left ↦ inl (rw other none_left)
        | inr (k, is, here) ↦ inr (suc k, rw other (omega (arith, is)), here)
      ]
    ]

-- The index of a field in the static table leads there.
pub full_match_static-entry_at :
    (t : DynamicTable) (mdel : MdelemData)
    → (full_match_static_mdelem_index mdel == 0) ≡ false
    → (0 < full_match_static_mdelem_index mdel)
      × (full_match_static_mdelem_index mdel ≤ 61)
      × (entry_at t (full_match_static_mdelem_index mdel) ≡ some mdel)
unfolding full_match_static_mdelem_index entry_at static_mdelem static_mdelem_table
full_match_static-entry_at t mdel h = elim (index_from-found 1 (drop 1 static_mdelem_table) mdel) [
  | inl zero_index ↦ absurd (ground arith)
  | inr (k, is, here) ↦
      let below = get_elem?-below (drop 1 static_mdelem_table) k here in
      let static : leb (suc k) standard_count ≡ true = ground arith in
      let suc_k : 1 + k ≡ suc k = omega arith in
      let value =
        get_elem?→get_or (drop 1 static_mdelem_table) k (record { key = []; value = [] }) here in
      rw (is, suc_k, static) (omega arith, omega arith, ap some value)
]

choose-cases :
    (tail a b : ℕ)
    → (choose tail a b ≤ tail)
      ⊎ ((tail < choose tail a b) × ((choose tail a b ≡ a) ⊎ (choose tail a b ≡ b)))
unfolding choose
choose-cases tail a b = ground arith

-- A slot that is not stale: the dynamic index leads to the field it holds.
pub record Leads (c : Compressor) (t : DynamicTable) (index : ℕ) (x : MdelemData) : Type 0 where
  pub beyond : 61 < dynidx c index
  pub fits : dynidx c index < 2 ^ 32
  pub there : entry_at t (dynidx c index) ≡ some x

module _ (flag : Bool) (c : Compressor) (t : DynamicTable) (s : InSync flag c t) where
  IsFresh-Leads :
      (r : SendRecord)
      → IsFresh flag c.tail_remote_index s.kept r
      → c.tail_remote_index < r.index
      → Leads c t r.index r.mdel
  unfolding dynidx entry_at get_mdelem_data
  IsFresh-Leads r (inl stale) h = absurd (omega arith)
  IsFresh-Leads r (inr (above, below, here)) h =
      let count = s.tracks.count in
      let size = s.tracks.size in
      let fits = s.tracks.fits in
      let small = s.tracks.small in
      let many = length-weights flag s.kept in
      let position : dynidx c r.index ≡ 62 + (c.tail_remote_index + length s.kept - r.index) =
        omega arith in
      let dynamic : leb (62 + (c.tail_remote_index + length s.kept - r.index)) standard_count
          ≡ false =
        ground arith in
      let past : 62 + (c.tail_remote_index + length s.kept - r.index) - (standard_count + 1)
          ≡ c.tail_remote_index + length s.kept - r.index =
        omega arith in
      record {
        beyond = omega arith;
        fits = omega arith;
        there = rw (position, dynamic, past, s.split) (get_elem?-append s.kept s.older _ here);
      }

  slot-Leads :
      (i : ℕ)
      → c.tail_remote_index < (slot c.entries i).index
      → Leads c t (slot c.entries i).index (slot c.entries i).mdel
  slot-Leads i h =
      IsFresh-Leads (slot c.entries i)
        (All-get_or (IsFresh flag c.tail_remote_index s.kept) c.entries i no_record s.tracks.slots
          (inl (omega arith)))
        h

  -- What a match promises, when its index is not stale.
  abbrev pub IsMatch : MdelemData → Match → Type 0
  IsMatch mdel not_match = Unit
  IsMatch mdel (full_match index) = (index ≤ c.tail_remote_index) ⊎ (Leads c t index mdel)
  IsMatch mdel (key_match index) =
      (index ≤ c.tail_remote_index) ⊎ ((e : MdelemData) × (Leads c t index e) × (e.key ≡ mdel.key))

  full_match-IsMatch :
      (mdel : MdelemData) (i : ℕ)
      → full_matches c.entries mdel i ≡ true
      → IsMatch mdel (full_match (slot c.entries i).index)
  unfolding full_matches
  full_match-IsMatch mdel i h =
      let same = (mdelem_eq_iff mdel (slot c.entries i).mdel).0 h in
      elim (Bool-cases (ltb c.tail_remote_index (slot c.entries i).index)) [
        | inl later ↦
            inr
              (subst (Leads c t (slot c.entries i).index) (sym same) (slot-Leads i (ground arith)))
        | inr stale ↦ inl (ground arith)
      ]

  -- A candidate that is not stale comes from a slot with the name.
  candidate-Leads :
      (mdel : MdelemData) (i index : ℕ)
      → index ≡ (if key_matches c.entries mdel i then (slot c.entries i).index else 0)
      → c.tail_remote_index < index
      → (e : MdelemData) × (Leads c t index e) × (e.key ≡ mdel.key)
  unfolding key_matches
  candidate-Leads mdel i index is h = elim (Bool-cases (key_matches c.entries mdel i)) [
    | inl match ↦
        let from : index ≡ (slot c.entries i).index =
          is ∙ ap (λ b. if b then (slot c.entries i).index else 0) match in
        let same : slice_eq (slot c.entries i).mdel.key mdel.key ≡ true = ground arith in
        (
          (slot c.entries i).mdel,
          subst (λ n. Leads c t n (slot c.entries i).mdel) (sym from) (slot-Leads i (omega arith)),
          (slice_eq_iff (slot c.entries i).mdel.key mdel.key).0 same,
        )
    | inr none_there ↦
        let from : index ≡ 0 =
          is ∙ ap (λ b. if b then (slot c.entries i).index else 0) none_there in
        absurd (omega arith)
  ]

  key_match-IsMatch :
      (mdel : MdelemData) (i j : ℕ)
      → IsMatch mdel (
          key_match (
            choose c.tail_remote_index
              (if key_matches c.entries mdel i then (slot c.entries i).index else 0)
              (if key_matches c.entries mdel j then (slot c.entries j).index else 0)))
  key_match-IsMatch mdel i j = elim (choose-cases c.tail_remote_index _ _) [
    | inl stale ↦ inl stale
    | inr (later, inl is) ↦ inr (candidate-Leads mdel i _ is later)
    | inr (later, inr is) ↦ inr (candidate-Leads mdel j _ is later)
  ]

  pub get_matching_index-IsMatch :
      (mdel : MdelemData) (key_hash : ℕ) → IsMatch mdel (get_matching_index c mdel key_hash)
  unfolding get_matching_index
  get_matching_index-IsMatch mdel key_hash =
      let first = hash_fragment_2 key_hash in
      let second = hash_fragment_3 key_hash in
      elim (Bool-cases (table_empty_at c.entries first && table_empty_at c.entries second)) [
        | inl empty ↦ rw empty tt
        | inr used ↦ elim (Bool-cases (full_matches c.entries mdel first)) [
          | inl same ↦ rw (used, same) (full_match-IsMatch mdel first same)
          | inr differs ↦ elim (Bool-cases (full_matches c.entries mdel second)) [
            | inl same ↦ rw (used, differs, same) (full_match-IsMatch mdel second same)
            | inr other ↦
                elim (Bool-cases (
                  not (key_matches c.entries mdel first)
                  && not (key_matches c.entries mdel second))) [
                    | inl none_there ↦ rw (used, differs, other, none_there) tt
                    | inr found ↦
                        rw (used, differs, other, found) (key_match-IsMatch mdel first second)
                  ]
          ]
        ]
      ]
