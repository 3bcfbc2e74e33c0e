-- ===== src/Hpack/Compressor/Ring.antt =====
-- The slots and the ring of src/hpack/send_record.cc behind a new element.
use libhttp.Prelude.{
  ℕ, zero, suc, ◌+◌, ◌-◌, ◌%◌, ◌^◌, ◌<◌, ◌≤◌, ◌≡◌, inl, inr, sym, ap, ◌∙◌, Bool, true, List, ◌∷◌,
  some, length, get_elem?, get_elem?-below, get_or, set, get_or-set, get_or-set_other, length-set,
  All, All-set, Bool-cases, arith,
}
use mathlib.Core.Path.{subst}
use native.Mathlib.Nat.{mod-lt}
use libhttp.Hpack.{MdelemData}
use libhttp.Hpack.Dynamic.Lookup.{mdelem_eq_iff}
use libhttp.Hpack.Compressor.{
  Compressor, SendRecord, slot, full_matches, table_empty_at, set_index, update_index,
  replace_older_index, update_add_or_evict, hash_fragment_2, hash_fragment_3,
}
use libhttp.Hpack.Compressor.Sync.{Tracks, IsFresh, weight, ring-distinct}

-- Whichever slot is written, it is written with the field and its index.
pub update_add_or_evict-All :
    (P : SendRecord → Type 0) (table : List SendRecord) (value : MdelemData) (value_hash index : ℕ)
    → All P table
    → P (record { mdel = value; index = index })
    → All P (update_add_or_evict table value value_hash index)
unfolding update_add_or_evict set_index update_index replace_older_index full_matches
update_add_or_evict-All P table value value_hash index all this =
    let first = hash_fragment_2 value_hash in
    let second = hash_fragment_3 value_hash in
    let put : (i : ℕ) → All P (set table i (record { mdel = value; index = index })) =
      λ i. All-set P table i _ all this in
    let renew : (i : ℕ)
        → full_matches table value i ≡ true
        → All P (set table i (record { mdel = (slot table i).mdel; index = index })) =
      λ i same. All-set P table i _ all (
        subst (λ md. P (record { mdel = md; index = index }))
          ((mdelem_eq_iff value (slot table i).mdel).0 same) this) in
    elim (Bool-cases (full_matches table value first)) [
      | inl same ↦ rw same (renew first same)
      | inr other ↦ elim (Bool-cases (table_empty_at table first)) [
        | inl empty ↦ rw (other, empty) (put first)
        | inr taken ↦ elim (Bool-cases (full_matches table value second)) [
          | inl same ↦ rw (other, taken, same) (renew second same)
          | inr differs ↦ elim (Bool-cases (table_empty_at table second)) [
            | inl empty ↦ rw (other, taken, differs, empty) (put second)
            | inr full ↦ rw (other, taken, differs, full) (put _)
          ]
        ]
      ]
    ]

module _ (flag : Bool) where
  -- Behind a new entry, every index leads one further.
  pub IsFresh-cons :
      (tail : ℕ) (kept : List MdelemData) (x : MdelemData) (r : SendRecord)
      → IsFresh flag tail kept r
      → IsFresh flag tail (x ∷ kept) r
  IsFresh-cons tail kept x r (inl stale) = inl stale
  IsFresh-cons tail kept x r (inr (above, below, here)) =
      let next : tail + suc (length kept) - r.index ≡ suc (tail + length kept - r.index) =
        omega arith in
      inr (above, omega arith, ap (get_elem? (x ∷ kept)) next ∙ here)

  abbrev pub with_elem : Compressor → MdelemData → ℕ → Compressor
  with_elem c x index = record c {
    table_elem_size = set c.table_elem_size (index % c.cap_table_elems) (weight flag x % 2 ^ 16);
    table_size = (c.table_size + weight flag x) % 2 ^ 32;
    table_elems = c.table_elems + 1;
  }

  -- The sizes in the ring after the write.
  with_elem-ring :
      (c : Compressor) (kept : List MdelemData) (x : MdelemData)
      → Tracks flag c kept
      → weight flag x < 65536
      → c.table_elems < c.max_table_elems
      → (i : ℕ) (y : MdelemData) → get_elem? (x ∷ kept) i ≡ some y
      → get_or
          (set c.table_elem_size
            ((c.tail_remote_index + length kept + 1) % c.cap_table_elems)
            (weight flag x % 2 ^ 16))
          ((c.tail_remote_index + suc (length kept) - i) % c.cap_table_elems)
          0
        ≡ weight flag y
  with_elem-ring c kept x t small below zero y h =
      let same : x ≡ y = cc h in
      let roomy = t.ring_room in
      let ring_length = t.ring_length in
      let inside =
        mod-lt (c.tail_remote_index + length kept + 1) {m = c.cap_table_elems} (omega arith) in
      let narrow : weight flag x % 2 ^ 16 ≡ weight flag x = omega arith in
      let here : c.tail_remote_index + suc (length kept) - 0
          ≡ c.tail_remote_index + length kept + 1 =
        omega arith in
      rw (narrow, here)
        (get_or-set c.table_elem_size _ (weight flag x) 0 (omega arith) ∙ ap (weight flag) same)
  with_elem-ring c kept x t small below (suc i) y h =
      let roomy = t.ring_room in
      let count = t.count in
      let inside = get_elem?-below kept i h in
      let there : c.tail_remote_index + suc (length kept) - suc i
          ≡ c.tail_remote_index + length kept - i =
        omega arith in
      let apart : c.tail_remote_index + length kept + 1
          ≡ c.tail_remote_index + length kept - i + (i + 1) =
        omega arith in
      rw there (
        get_or-set_other c.table_elem_size _ _ (weight flag x % 2 ^ 16) 0 (λ e.
          ring-distinct (c.tail_remote_index + length kept - i) (i + 1) c.cap_table_elems
            (omega arith) (omega arith) (ap (λ (n : ℕ). n % c.cap_table_elems) (sym apart) ∙ e))
        ∙ t.ring i y h)

  pub with_elem-Tracks :
      (c : Compressor) (kept : List MdelemData) (x : MdelemData) (entries : List SendRecord)
      → Tracks flag c kept
      → c.table_size + weight flag x ≤ c.max_table_size
      → weight flag x < 65536
      → c.table_elems < c.max_table_elems
      → All (IsFresh flag c.tail_remote_index (x ∷ kept)) entries
      → Tracks flag
          (record (with_elem c x (c.tail_remote_index + length kept + 1)) { entries = entries })
          (x ∷ kept)
  with_elem-Tracks c kept x entries t within small below fresh =
      let count = t.count in
      let size = t.size in
      let narrow = t.small in
      record {
        count = omega arith;
        size = omega arith;
        fits = omega arith;
        small = t.small;
        room = t.room;
        ring_room = t.ring_room;
        ring_length = length-set c.table_elem_size _ _ ∙ t.ring_length;
        ring = with_elem-ring c kept x t small below;
        slots = fresh;
      }
