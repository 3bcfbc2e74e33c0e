-- ===== src/Hpack/Dynamic/Loop.antt =====
-- The loop that evicts: what it leaves, and that the accounting stays exact (RFC 7541, 4.1 and 4.3).
use libhttp.Prelude.{
  ℕ, zero, suc, ◌+◌, ◌^◌, ◌<◌, ◌≤◌, ◌≡◌, refl, sym, ap, ◌∙◌, ◌⊎◌, inl, inr, List, [], ◌∷◌, ◌++◌,
  some, length, length-append, append_assoc, append-nil, Bool-cases, ltb, ltb→lt, lt→ltb, arith,
}
use libhttp.Hpack.{MdelemData, mdelem_size}
use libhttp.Hpack.Dynamic.{
  DynamicTable, back, pop_back, evict_back, adjust_loop, adjust_dynamic_table_size,
}

-- An entry counts its name, its value and 32 bytes.
abbrev pub cost : MdelemData → ℕ
cost e = mdelem_size e + 32

abbrev pub total : List MdelemData → ℕ
total [] = 0
total (e ∷ es) = cost e + total es

pub total-append : (xs ys : List MdelemData) → total (xs ++ ys) ≡ total xs + total ys
total-append [] ys = omega arith
total-append (x ∷ xs) ys = omega (arith, total-append xs ys)

pub back_cases :
    (xs : List MdelemData)
    → (xs ≡ [])
      ⊎ ((front : List MdelemData) × (x : MdelemData) × (xs ≡ front ++ (x ∷ []))
          × (back xs ≡ some x)
          × (pop_back xs ≡ front))
unfolding back pop_back
back_cases [] = inl refl
back_cases (e ∷ []) = inr ([], e, refl, refl, refl)
back_cases (e ∷ f ∷ es) = elim (back_cases (f ∷ es)) [
  | inl h ↦ absurd (cc h)
  | inr (front, x, split, last, popped) ↦
      inr (e ∷ front, x, ap (◌∷◌ e) split, last, ap (◌∷◌ e) popped)
]

-- What the eviction leaves: the longest run of newest entries whose size is within the maximum.
pub record IsLongestFit (max_size : ℕ) (all kept : List MdelemData) : Type 0 where
  pub dropped : List MdelemData
  pub split : all ≡ kept ++ dropped
  pub fits : total kept ≤ max_size
  pub longest :
      (dropped ≡ [])
      ⊎ ((next : MdelemData) × (others : List MdelemData) × (dropped ≡ next ∷ others)
          × (max_size < total kept + cost next))

-- The accounting is exact.
pub record IsAccounted (t : DynamicTable) : Type 0 where
  pub exact : t.current_table_size ≡ total t.entries
  pub narrow : t.current_table_size < 2 ^ 32

evict_back-IsAccounted :
    (t : DynamicTable) (front : List MdelemData) (x : MdelemData)
    → IsAccounted t
    → t.entries ≡ front ++ (x ∷ [])
    → pop_back t.entries ≡ front
    → IsAccounted (evict_back t x)
unfolding evict_back
evict_back-IsAccounted t front x a split popped =
    let sum : t.current_table_size ≡ total front + (cost x + 0) =
      a.exact ∙ ap total split ∙ total-append front (x ∷ []) in
    record { exact = rw popped (omega (arith, a.narrow)); narrow = omega arith }

-- Where a round of the loop stands, `all` being the entries it began with.
record IsStage (all : List MdelemData) (t : DynamicTable) : Type 0 where
  accounted : IsAccounted t
  gone : List MdelemData
  split : all ≡ t.entries ++ gone
  longest :
      (gone ≡ [])
      ⊎ ((next : MdelemData) × (others : List MdelemData) × (gone ≡ next ∷ others)
          × (t.max_table_size < total t.entries + cost next))

pub record IsAdjusted (all : List MdelemData) (t r : DynamicTable) : Type 0 where
  pub accounted : IsAccounted r
  pub fit : IsLongestFit t.max_table_size all r.entries
  pub same_max : r.max_table_size ≡ t.max_table_size
  pub same_limit : r.max_table_size_limit ≡ t.max_table_size_limit

IsStage-done :
    (all : List MdelemData) (t : DynamicTable)
    → IsStage all t
    → t.current_table_size ≤ t.max_table_size
    → IsAdjusted all t t
IsStage-done all t s h = record {
  accounted = s.accounted;
  fit = record {
    dropped = s.gone;
    split = s.split;
    fits = let e = s.accounted.exact in omega arith;
    longest = s.longest;
  };
  same_max = refl;
  same_limit = refl;
}

IsStage-evict :
    (all : List MdelemData) (t : DynamicTable) (front : List MdelemData) (x : MdelemData)
    → IsStage all t
    → t.max_table_size < t.current_table_size
    → t.entries ≡ front ++ (x ∷ [])
    → pop_back t.entries ≡ front
    → IsStage all (evict_back t x)
unfolding evict_back
IsStage-evict all t front x s h split popped =
    let a = s.accounted in
    let sum : t.current_table_size ≡ total front + (cost x + 0) =
      a.exact ∙ ap total split ∙ total-append front (x ∷ []) in
    record {
      accounted = evict_back-IsAccounted t front x a split popped;
      gone = x ∷ s.gone;
      split =
          s.split
          ∙ ap (λ es. es ++ s.gone) split
          ∙ append_assoc front (x ∷ []) s.gone
          ∙ ap (λ es. es ++ (x ∷ s.gone)) (sym popped);
      longest = inr (x, s.gone, refl, rw popped (omega arith));
    }

total-empty : (xs : List MdelemData) → length xs ≤ 0 → total xs ≡ 0
total-empty [] h = refl
total-empty (x ∷ xs) h = absurd (omega arith)

-- A round with something to evict.
adjust_loop-round :
    (fuel : ℕ) (all : List MdelemData) (t : DynamicTable)
    → IsStage all t
    → length t.entries ≤ suc fuel
    → t.max_table_size < t.current_table_size
    → ((u : DynamicTable)
        → IsStage all u
        → length u.entries ≤ fuel
        → IsAdjusted all u (adjust_loop fuel u))
    → IsAdjusted all t (adjust_loop (suc fuel) t)
unfolding adjust_loop evict_back
adjust_loop-round fuel all t s h over rest = elim (back_cases t.entries) [
  | inl none_left ↦
      let e = s.accounted.exact in
      let zero_size = total-empty t.entries (rw none_left (omega arith)) in absurd (omega arith)
  | inr (front, x, split, last, popped) ↦
      let shorter : length t.entries ≡ length front + 1 =
        ap length split ∙ length-append front (x ∷ []) in
      let next =
        rest (evict_back t x) (IsStage-evict all t front x s over split popped)
          (rw popped (omega arith)) in
      rw (adjust_loop, lt→ltb t.max_table_size t.current_table_size over, last)
        (record {
          accounted = next.accounted;
          fit = next.fit;
          same_max = next.same_max;
          same_limit = next.same_limit;
        })
]

adjust_loop-IsAdjusted :
    (fuel : ℕ) (all : List MdelemData) (t : DynamicTable)
    → IsStage all t
    → length t.entries ≤ fuel
    → IsAdjusted all t (adjust_loop fuel t)
unfolding adjust_loop
adjust_loop-IsAdjusted zero all t s h =
    let e = s.accounted.exact in
    let empty = total-empty t.entries h in IsStage-done all t s (omega arith)
adjust_loop-IsAdjusted (suc fuel) all t s h =
    elim (Bool-cases (ltb t.max_table_size t.current_table_size)) [
      | inl over ↦
          adjust_loop-round fuel all t s h (ltb→lt t.max_table_size t.current_table_size over)
            (adjust_loop-IsAdjusted fuel all)
      | inr within ↦ rw (adjust_loop, within) (IsStage-done all t s (ground arith))
    ]

pub adjust_dynamic_table_size-IsAdjusted :
    (t : DynamicTable) → IsAccounted t → IsAdjusted t.entries t (adjust_dynamic_table_size t)
unfolding adjust_dynamic_table_size
adjust_dynamic_table_size-IsAdjusted t a =
    adjust_loop-IsAdjusted (length t.entries) t.entries t
      (record { accounted = a; gone = []; split = sym (append-nil t.entries); longest = inl refl })
      (omega arith)
