-- ===== src/Hpack/Compressor/Sync.antt =====
-- What ties the compressor of src/hpack/send_record.cc to the dynamic table of the decoder at the other
-- end: the compressor accounts for a run of the newest entries there.
use libhttp.Prelude.{
  ℕ, zero, suc, ◌+◌, ◌-◌, ◌*◌, ◌%◌, ◌^◌, ◌<◌, ◌≤◌, ◌≡◌, ◌⊎◌, inl, inr, refl, sym, ap, ◌∙◌, Bool,
  List, [], ◌∷◌, ◌++◌, some, length, get_elem?, All, Bool-cases, ltb, arith,
}
use native.Mathlib.Nat.{mod-eq_of_lt, mod-eq-sub-mod, mod-add-mod, mod-lt}
use libhttp.Hpack.{MdelemData, mdelem_size}
use libhttp.Hpack.Dynamic.{DynamicTable}
use libhttp.Hpack.Dynamic.Loop.{cost, total, total-append, IsLongestFit, IsAccounted}
use libhttp.Hpack.Compressor.{
  Compressor, SendRecord, size_at, get_size_in_hpack_table, get_base64_encoded_size,
  grpc_key_is_binary_header, elems_for_bytes,
}

-- Positions of a ring that are less than its capacity apart differ.
pub ring-distinct : (a k w : ℕ) → 0 < k → k < w → (a + k) % w ≡ a % w → ⊥
ring-distinct a k w lo hi h =
    let r : a % w < w = mod-lt a (omega arith) in
    let step : (a % w + k) % w ≡ a % w = mod-add-mod a w k ∙ h in
    elim (Bool-cases (ltb (a % w + k) w)) [
      | inl below ↦
          let lower : a % w + k < w = ground arith in let plain = mod-eq_of_lt lower in omega arith
      | inr over ↦
          let upper : w ≤ a % w + k = ground arith in
          let less = mod-eq-sub-mod upper in
          let small : a % w + k - w < w = omega arith in
          let plain = mod-eq_of_lt small in omega arith
    ]

base64-le : (n : ℕ) → n ≤ get_base64_encoded_size n
unfolding get_base64_encoded_size
base64-le n = elim (tails (n % 3) (omega arith)) [
  | inl e ↦ rw e (omega arith)
  | inr (inl e) ↦ rw e (omega arith)
  | inr (inr e) ↦ rw e (omega arith)
]
  where
    tails : (r : ℕ) → r < 3 → (r ≡ 0) ⊎ ((r ≡ 1) ⊎ (r ≡ 2))
    tails zero h = inl refl
    tails (suc zero) h = inr (inl refl)
    tails (suc (suc zero)) h = inr (inr refl)
    tails (suc (suc (suc r))) h = absurd (omega arith)

-- The compressor counts for a field no less than the decoder does.
pub cost-get_size_in_hpack_table :
    (mdel : MdelemData) (flag : Bool) → cost mdel ≤ get_size_in_hpack_table mdel flag
unfolding get_size_in_hpack_table mdelem_size
cost-get_size_in_hpack_table mdel flag =
    let grows = base64-le (length mdel.value) in
    elim (Bool-cases (grpc_key_is_binary_header mdel.key)) [
      | inl binary ↦ elim (Bool-cases flag) [
        | inl e ↦ rw (binary, e) (omega arith)
        | inr e ↦ rw (binary, e) (omega arith)
      ]
      | inr plain ↦ rw plain (omega arith)
    ]

module _ (flag : Bool) where
  abbrev pub weight : MdelemData → ℕ
  weight mdel = get_size_in_hpack_table mdel flag

  abbrev pub weights : List MdelemData → ℕ
  weights [] = 0
  weights (x ∷ xs) = weight x + weights xs

  pub total-weights : (xs : List MdelemData) → total xs ≤ weights xs
  total-weights [] = omega arith
  total-weights (x ∷ xs) = omega (arith, total-weights xs, cost-get_size_in_hpack_table x flag)

  -- An entry counts 32 bytes at least.
  pub length-weights : (xs : List MdelemData) → length xs * 32 ≤ weights xs
  length-weights [] = omega arith
  length-weights (x ∷ xs) = omega (arith, length-weights xs, cost-get_size_in_hpack_table x flag)

  pub weights-append : (xs ys : List MdelemData) → weights (xs ++ ys) ≡ weights xs + weights ys
  weights-append [] ys = omega arith
  weights-append (x ∷ xs) ys = omega (arith, weights-append xs ys)

  -- A slot is stale, or its index, counted from the newest entry, leads to the field it holds.
  abbrev pub IsFresh : ℕ → List MdelemData → SendRecord → Type 0
  IsFresh tail kept r =
      (r.index ≤ tail)
      ⊎ ((tail < r.index)
          × (r.index ≤ tail + length kept)
          × (get_elem? kept (tail + length kept - r.index) ≡ some r.mdel))

  -- The compressor `c` accounts for `kept`, the newest entry first.
  pub record Tracks (c : Compressor) (kept : List MdelemData) : Type 0 where
    pub count : c.table_elems ≡ length kept
    pub size : c.table_size ≡ weights kept
    pub fits : c.table_size ≤ c.max_table_size
    pub small : c.max_table_size < 2 ^ 31
    pub room : c.max_table_elems ≡ elems_for_bytes c.max_table_size
    pub ring_room : c.max_table_elems ≤ c.cap_table_elems
    pub ring_length : length c.table_elem_size ≡ c.cap_table_elems
    pub ring :
        (i : ℕ) (x : MdelemData)
        → get_elem? kept i ≡ some x
        → size_at c (c.tail_remote_index + length kept - i) ≡ weight x
    pub slots : All (IsFresh c.tail_remote_index kept) c.entries

  -- The decoder's table `t` begins with what the compressor accounts for.
  pub record InSync (c : Compressor) (t : DynamicTable) : Type 0 where
    pub kept : List MdelemData
    pub older : List MdelemData
    pub split : t.entries ≡ kept ++ older
    pub tracks : Tracks c kept
    pub accounted : IsAccounted t
    pub within : t.current_table_size ≤ t.max_table_size
    pub bounded : t.max_table_size < 2 ^ 31
    pub no_more : c.max_table_size ≤ t.max_table_size

-- Of two ways to split a list, one front begins the other.
fronts :
    (xs ys zs dropped : List MdelemData)
    → xs ++ ys ≡ zs ++ dropped
    → ((older : List MdelemData) × (zs ≡ xs ++ older))
      ⊎ ((next : MdelemData) × (others : List MdelemData) × (more : List MdelemData) × (xs
            ≡ zs ++ (next ∷ more))
          × (dropped ≡ next ∷ others))
fronts [] ys zs dropped h = inl (zs, refl)
fronts (x ∷ xs) ys [] dropped h = inr (x, xs ++ ys, xs, refl, sym h)
fronts (x ∷ xs) ys (z ∷ zs) dropped h =
    let same : x ≡ z = cc h in
    elim (fronts xs ys zs dropped (cc h)) [
      | inl (older, e) ↦ inl (older, cc (same, e))
      | inr (next, others, more, e, d) ↦ inr (next, others, more, cc (same, e), d)
    ]

-- A run of newest entries that fits is within the longest one.
pub IsLongestFit-front :
    {max_size : ℕ} (xs ys : List MdelemData) {kept : List MdelemData}
    → IsLongestFit max_size (xs ++ ys) kept
    → total xs ≤ max_size
    → (older : List MdelemData) × (kept ≡ xs ++ older)
IsLongestFit-front xs ys {kept} fit h = elim (fronts xs ys kept fit.dropped fit.split) [
  | inl found ↦ found
  | inr (next, others, more, e, d) ↦ elim fit.longest [
    | inl none_gone ↦ absurd (cc (none_gone, d))
    | inr (first, rest, split, large) ↦
        let same : next ≡ first = cc (d, split) in
        let sum = ap total e ∙ total-append kept (next ∷ more) in
        let size = ap cost same in absurd (omega arith)
  ]
]
