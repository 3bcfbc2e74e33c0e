-- ===== src/Hpack/Compressor/Evict.antt =====
-- The loops of src/hpack/send_record.cc that evict: no assertion fails, and what they leave the
-- compressor accounts for again.
use libhttp.Prelude.{
  ℕ, zero, suc, ◌+◌, ◌-◌, ◌%◌, ◌^◌, ◌<◌, ◌≤◌, ◌≡◌, inl, inr, refl, sym, ap, ◌∙◌, Bool, true, List,
  [], ◌∷◌, ◌++◌, Option, some, length, length-append, append_assoc, append-nil, get_elem?,
  get_elem?-append, get_elem?-front, get_elem?-last, All-map, Bool-cases, ltb, leb, ltb→lt, arith,
}
use mathlib.Core.Path.{subst}
use libhttp.Hpack.{MdelemData}
use libhttp.Hpack.Dynamic.Loop.{back_cases}
use libhttp.Hpack.Compressor.{Compressor, SendRecord, size_at, evict_entry, evict_until, evict_loop}
use libhttp.Hpack.Compressor.Sync.{Tracks, IsFresh, weight, weights, weights-append}

module _ (flag : Bool) where
  -- The eviction of the oldest entry.
  abbrev without_last : Compressor → MdelemData → Compressor
  without_last c x = record c {
    tail_remote_index = c.tail_remote_index + 1;
    table_size = c.table_size - weight flag x;
    table_elems = c.table_elems - 1;
  }

  IsFresh-front :
      (tail : ℕ) (front : List MdelemData) (x : MdelemData) (r : SendRecord)
      → IsFresh flag tail (front ++ (x ∷ [])) r
      → IsFresh flag (tail + 1) front r
  IsFresh-front tail front x r (inl stale) = inl (omega arith)
  IsFresh-front tail front x r (inr (above, below, here)) =
      let longer = length-append front (x ∷ []) in
      elim (Bool-cases (leb r.index (tail + 1))) [
        | inl oldest ↦ inl (ground arith)
        | inr kept ↦
            let same : tail + length (front ++ (x ∷ [])) - r.index
                ≡ tail + 1 + length front - r.index =
              omega arith in
            let inside : tail + 1 + length front - r.index < length front = ground arith in
            inr (
              ground arith,
              omega arith,
              sym (get_elem?-front front (x ∷ []) (tail + 1 + length front - r.index) inside)
                  ∙ ap (get_elem? (front ++ (x ∷ []))) (sym same)
                  ∙ here,
            )
      ]

  without_last-Tracks :
      (c : Compressor) (front : List MdelemData) (x : MdelemData)
      → Tracks flag c (front ++ (x ∷ []))
      → Tracks flag (without_last c x) front
  without_last-Tracks c front x t =
      let longer = length-append front (x ∷ []) in
      let sum = weights-append flag front (x ∷ []) in
      let count = t.count in
      let size = t.size in
      let fits = t.fits in
      record {
        count = omega arith;
        size = omega arith;
        fits = omega arith;
        small = t.small;
        room = t.room;
        ring_room = t.ring_room;
        ring_length = t.ring_length;
        ring = λ i y h.
            let same : c.tail_remote_index + 1 + length front - i
                ≡ c.tail_remote_index + length (front ++ (x ∷ [])) - i =
              omega arith in
            ap (size_at c) same ∙ t.ring i y (get_elem?-append front (x ∷ []) i h);
        slots =
            All-map (IsFresh flag c.tail_remote_index (front ++ (x ∷ [])))
              (IsFresh flag (c.tail_remote_index + 1) front) c.entries
              (IsFresh-front c.tail_remote_index front x) t.slots;
      }

  evict_entry-some :
      (c : Compressor) (front : List MdelemData) (x : MdelemData)
      → Tracks flag c (front ++ (x ∷ []))
      → c.tail_remote_index + length (front ++ (x ∷ [])) < 2 ^ 32
      → evict_entry c ≡ some (without_last c x)
  unfolding evict_entry
  evict_entry-some c front x t fits =
      let longer = length-append front (x ∷ []) in
      let sum = weights-append flag front (x ∷ []) in
      let count = t.count in
      let size = t.size in
      let tail : (c.tail_remote_index + 1) % 2 ^ 32 ≡ c.tail_remote_index + 1 = omega arith in
      let last : c.tail_remote_index + length (front ++ (x ∷ [])) - length front
          ≡ c.tail_remote_index + 1 =
        omega arith in
      let here : size_at c (c.tail_remote_index + 1) ≡ weight flag x =
        ap (size_at c) (sym last) ∙ t.ring (length front) x (get_elem?-last front x) in
      let positive : ltb 0 (c.tail_remote_index + 1) ≡ true = ground arith in
      let enough : leb (weight flag x) c.table_size ≡ true = ground arith in
      let some_left : ltb 0 c.table_elems ≡ true = ground arith in
      rw (tail, here, positive, enough, some_left) refl

  pub record IsEvicted (c : Compressor) (kept : List MdelemData) (elem_size limit : ℕ)
      (r : Option Compressor) : Type 0 where
    pub after : Compressor
    pub left : List MdelemData
    pub gone : List MdelemData
    pub done : r ≡ some after
    pub split : kept ≡ left ++ gone
    pub tracks : Tracks flag after left
    pub room : after.table_size + elem_size ≤ limit
    pub same_max : after.max_table_size ≡ c.max_table_size
    pub same_newest : after.tail_remote_index + length left ≡ c.tail_remote_index + length kept

  nothing-IsEvicted :
      (c : Compressor) (kept : List MdelemData) (elem_size limit : ℕ)
      → Tracks flag c kept
      → c.table_size + elem_size ≤ limit
      → IsEvicted c kept elem_size limit (some c)
  nothing-IsEvicted c kept elem_size limit t h = record {
    after = c;
    left = kept;
    gone = [];
    done = refl;
    split = sym (append-nil kept);
    tracks = t;
    room = h;
    same_max = refl;
    same_newest = refl;
  }

  -- A round of the loop.
  round-IsEvicted :
      (c : Compressor) (kept : List MdelemData) (elem_size limit : ℕ)
      → Tracks flag c kept
      → elem_size ≤ limit
      → limit < c.table_size + elem_size
      → c.tail_remote_index + length kept < 2 ^ 32
      → (front : List MdelemData) × (x : MdelemData) × (kept ≡ front ++ (x ∷ []))
        × (evict_entry c ≡ some (without_last c x))
        × Tracks flag (without_last c x) front
        × (c.tail_remote_index + 1 + length front ≡ c.tail_remote_index + length kept)
  round-IsEvicted c kept elem_size limit t small over fits = elim (back_cases kept) [
    | inl empty ↦ let size = t.size ∙ ap (weights flag) empty in absurd (omega arith)
    | inr (front, x, split, last, popped) ↦
        let longer = ap length split ∙ length-append front (x ∷ []) in
        let tracks = subst (Tracks flag c) split t in
        let below : c.tail_remote_index + length (front ++ (x ∷ [])) < 2 ^ 32 =
          rw (sym split) fits in
        (
          front,
          x,
          split,
          evict_entry-some c front x tracks below,
          without_last-Tracks c front x tracks,
          omega arith,
        )
  ]

  evict_until-IsEvicted :
      (fuel : ℕ) (c : Compressor) (kept : List MdelemData) (elem_size limit : ℕ)
      → Tracks flag c kept
      → elem_size ≤ limit
      → length kept ≤ fuel
      → c.tail_remote_index + length kept < 2 ^ 32
      → IsEvicted c kept elem_size limit (evict_until fuel elem_size limit c)
  unfolding evict_until
  evict_until-IsEvicted zero c [] elem_size limit t small enough fits =
      let size = t.size in
      let stop : ltb limit (c.table_size + elem_size) ≡ Bool.false = ground arith in
      rw (evict_until, stop) (nothing-IsEvicted c [] elem_size limit t (omega arith))
  evict_until-IsEvicted zero c (x ∷ xs) elem_size limit t small enough fits = absurd (omega arith)
  evict_until-IsEvicted (suc fuel) c kept elem_size limit t small enough fits =
      elim (Bool-cases (ltb limit (c.table_size + elem_size))) [
        | inl over ↦
            let (front, x, here, evicted, tracks, newest) =
              round-IsEvicted c kept elem_size limit t small (ltb→lt _ _ over) fits in
            let longer = ap length here ∙ length-append front (x ∷ []) in
            let next =
              evict_until-IsEvicted fuel (without_last c x) front elem_size limit tracks small
                (omega arith) (omega arith) in
            rw (evict_until, over, evicted)
              (record {
                after = next.after;
                left = next.left;
                gone = next.gone ++ (x ∷ []);
                done = next.done;
                split =
                    here
                    ∙ ap (λ es. es ++ (x ∷ [])) next.split
                    ∙ append_assoc next.left next.gone (x ∷ []);
                tracks = next.tracks;
                room = next.room;
                same_max = next.same_max;
                same_newest = next.same_newest ∙ newest;
              })
        | inr within ↦
            rw (evict_until, within) (nothing-IsEvicted c kept elem_size limit t (ground arith))
      ]

  -- The loop ends with room for the element, by evictions of which none fails an assertion.
  pub evict_loop-IsEvicted :
      (c : Compressor) (kept : List MdelemData) (elem_size limit : ℕ)
      → Tracks flag c kept
      → elem_size ≤ limit
      → c.tail_remote_index + length kept < 2 ^ 32
      → IsEvicted c kept elem_size limit (evict_loop elem_size limit c)
  evict_loop-IsEvicted c kept elem_size limit t small fits =
      evict_until-IsEvicted c.table_elems c kept elem_size limit t small
        (let count = t.count in omega arith) fits
