-- ===== src/Hpack/Compressor/Add.antt =====
-- `add_elem` of src/hpack/send_record.cc, against the push to the dynamic table that it goes with.
use libhttp.Prelude.{
  ℕ, suc, ◌+◌, ◌-◌, ◌%◌, ◌^◌, ◌<◌, ◌≤◌, ◌≡◌, inl, inr, refl, ap, ◌∙◌, Bool, true, false, List, [],
  ◌∷◌, ◌++◌, Option, some, length, get_elem?, All-map, Bool-cases, ltb, ◌==◌, lt→ltb, ltb→lt,
  append_assoc, arith,
}
use mathlib.Core.Path.{subst}
use libhttp.Hpack.{MdelemData}
use libhttp.Hpack.Dynamic.{DynamicTable, push_mdelem_data}
use libhttp.Hpack.Dynamic.Loop.{IsLongestFit}
use libhttp.Hpack.Dynamic.Eviction.{push_mdelem_data-IsPushed}
use libhttp.Hpack.Compressor.{
  Compressor, update_add_or_evict, append_elem, prepare_space_for_new_elem, add_elem, evict_loop,
}
use libhttp.Hpack.Compressor.Sync.{
  Tracks, InSync, IsFresh, weight, length-weights, total-weights, cost-get_size_in_hpack_table,
  IsLongestFit-front,
}
use libhttp.Hpack.Compressor.Evict.{evict_loop-IsEvicted, IsEvicted}
use libhttp.Hpack.Compressor.Ring.{
  update_add_or_evict-All, IsFresh-cons, with_elem, with_elem-Tracks,
}

module _ (flag : Bool) where
  -- A compressor that accounts for a run of what the table of the decoder begins with.
  push-InSync :
      (c : Compressor) (t : DynamicTable) (x : MdelemData) (kept older : List MdelemData)
      → InSync flag c t
      → weight flag x < 65536
      → t.entries ≡ kept ++ older
      → (d : Compressor) → (run : List MdelemData) (rest : List MdelemData)
      → x ∷ (kept ++ older) ≡ run ++ rest
      → Tracks flag d run
      → d.max_table_size ≡ c.max_table_size
      → InSync flag d (push_mdelem_data t x)
  push-InSync c t x kept older s small entries d run rest split tracks same =
      let counted = cost-get_size_in_hpack_table x flag in
      let within = s.within in
      let bounded = s.bounded in
      let no_more = s.no_more in
      let fits = tracks.fits in
      let size = tracks.size in
      let run_size = total-weights flag run in
      let pushed = push_mdelem_data-IsPushed t x s.accounted (omega arith) in
      let exact = pushed.accounted.exact in
      let total_fits = pushed.fit.fits in
      let maxes = pushed.same_max in
      let whole : x ∷ t.entries ≡ run ++ rest = ap (◌∷◌ x) entries ∙ split in
      let (behind, e) =
        IsLongestFit-front run rest
          (subst (λ es. IsLongestFit t.max_table_size es (push_mdelem_data t x).entries) whole
            pushed.fit)
          (omega arith) in
      record {
        kept = run;
        older = behind;
        split = e;
        tracks = tracks;
        accounted = pushed.accounted;
        within = omega arith;
        bounded = omega arith;
        no_more = omega arith;
      }

  -- What `add_elem` leaves: the compressor in step with the table behind the push.
  pub record IsAdded (c : Compressor) (t : DynamicTable) (x : MdelemData) (r : Option Compressor)
      : Type 0 where
    pub after : Compressor
    pub done : r ≡ some after
    pub sync : InSync flag after (push_mdelem_data t x)
    pub newest :
        after.tail_remote_index + after.table_elems ≤ c.tail_remote_index + c.table_elems + 1

  -- An element that does not fit empties the table.
  too_large-IsAdded :
      (c : Compressor) (t : DynamicTable) (x : MdelemData) (key_hash : ℕ)
      → InSync flag c t
      → weight flag x < 65536
      → c.tail_remote_index + c.table_elems + 1 < 2 ^ 32
      → c.max_table_size < weight flag x
      → IsAdded c t x (add_elem c x (weight flag x) key_hash)
  unfolding add_elem prepare_space_for_new_elem
  too_large-IsAdded c t x key_hash s small below large =
      let count = s.tracks.count in
      let gone : IsEvicted flag c s.kept 0 0 (evict_loop 0 0 c) =
        evict_loop-IsEvicted flag c s.kept 0 0 s.tracks (omega arith) (omega arith) in
      let d = gone.after in
      let size = gone.tracks.size in
      let room = gone.room in
      let many = length-weights flag gone.left in
      let left_count = gone.tracks.count in
      let newest = gone.same_newest in
      let empty : gone.left ≡ [] = nothing gone.left (omega arith) in
      let narrow : ltb (weight flag x) 65536 ≡ true = lt→ltb _ _ small in
      let over : ltb c.max_table_size (weight flag x) ≡ true = lt→ltb _ _ large in
      rw (add_elem, prepare_space_for_new_elem, narrow, over, gone.done)
        (record {
          after = d;
          done = refl;
          sync =
              push-InSync c t x s.kept s.older s small s.split d [] (x ∷ (s.kept ++ s.older)) refl
                (subst (Tracks flag d) empty gone.tracks) gone.same_max;
          newest = omega arith;
        })
    where
      nothing : (xs : List MdelemData) → length xs ≤ 0 → xs ≡ []
      nothing [] h = refl
      nothing (y ∷ ys) h = absurd (omega arith)

  append-done :
      (c : Compressor) (kept : List MdelemData) (x : MdelemData)
      → Tracks flag c kept
      → c.table_size + weight flag x ≤ c.max_table_size
      → c.table_elems < c.max_table_elems
  append-done c kept x t within =
      let count = t.count in
      let size = t.size in
      let room = t.room in
      let narrow = t.small in
      let counted = cost-get_size_in_hpack_table x flag in
      let many = length-weights flag kept in omega arith

  fitting-IsAdded :
      (c : Compressor) (t : DynamicTable) (x : MdelemData) (key_hash : ℕ)
      → InSync flag c t
      → weight flag x < 65536
      → c.tail_remote_index + c.table_elems + 1 < 2 ^ 32
      → weight flag x ≤ c.max_table_size
      → IsAdded c t x (add_elem c x (weight flag x) key_hash)
  unfolding add_elem prepare_space_for_new_elem append_elem
  fitting-IsAdded c t x key_hash s small below fits =
      let count = s.tracks.count in
      let gone : IsEvicted flag c s.kept (weight flag x) c.max_table_size
          (evict_loop (weight flag x) c.max_table_size c) =
        evict_loop-IsEvicted flag c s.kept (weight flag x) c.max_table_size s.tracks fits
          (omega arith) in
      let d = gone.after in
      let room = gone.room in
      let same_max = gone.same_max in
      let within : d.table_size + weight flag x ≤ d.max_table_size = omega arith in
      let more = append-done d gone.left x gone.tracks within in
      let left_count = gone.tracks.count in
      let newest = gone.same_newest in
      let index = d.tail_remote_index + length gone.left + 1 in
      let index_is : (c.tail_remote_index + c.table_elems + 1) % 2 ^ 32 ≡ index = omega arith in
      let narrow : ltb (weight flag x) 65536 ≡ true = lt→ltb _ _ small in
      let no_over : ltb c.max_table_size (weight flag x) ≡ false = ground arith in
      let has_room : ltb d.table_elems d.max_table_elems ≡ true = lt→ltb _ _ more in
      let some_index : (index == 0) ≡ false = ground arith in
      let front : d.tail_remote_index + suc (length gone.left) - index ≡ 0 = omega arith in
      let fresh =
        update_add_or_evict-All (IsFresh flag d.tail_remote_index (x ∷ gone.left)) d.entries x
          key_hash index
          (All-map (IsFresh flag d.tail_remote_index gone.left)
            (IsFresh flag d.tail_remote_index (x ∷ gone.left)) d.entries
            (IsFresh-cons flag d.tail_remote_index gone.left x) gone.tracks.slots)
          (inr (omega arith, omega arith, ap (get_elem? (x ∷ gone.left)) front)) in
      rw
        (
          add_elem, prepare_space_for_new_elem, narrow, no_over, gone.done, index_is, append_elem,
          has_room, some_index,
        )
        (record {
          after = record (with_elem flag d x index) {
            entries = update_add_or_evict d.entries x key_hash index;
          };
          done = refl;
          sync =
              push-InSync c t x s.kept s.older s small s.split _ (x ∷ gone.left)
                (gone.gone ++ s.older)
                (ap (◌∷◌ x)
                  (ap (λ es. es ++ s.older) gone.split ∙ append_assoc gone.left gone.gone s.older))
                (with_elem-Tracks flag d gone.left x _ gone.tracks within small more fresh)
                same_max;
          newest = omega arith;
        })

  -- `add_elem` fails no assertion, and keeps in step with the decoder.
  pub add_elem-IsAdded :
      (c : Compressor) (t : DynamicTable) (x : MdelemData) (key_hash : ℕ)
      → InSync flag c t
      → weight flag x < 65536
      → c.tail_remote_index + c.table_elems + 1 < 2 ^ 32
      → IsAdded c t x (add_elem c x (weight flag x) key_hash)
  add_elem-IsAdded c t x key_hash s small below =
      elim (Bool-cases (ltb c.max_table_size (weight flag x))) [
        | inl over ↦ too_large-IsAdded c t x key_hash s small below (ltb→lt _ _ over)
        | inr fits ↦ fitting-IsAdded c t x key_hash s small below (ground arith)
      ]
