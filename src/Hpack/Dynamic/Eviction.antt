-- ===== src/Hpack/Dynamic/Eviction.antt =====
-- The size accounting and the eviction of the dynamic table (RFC 7541, sections 4.1 to 4.4).
use libhttp.Prelude.{ℕ, ◌+◌, ◌%◌, ◌^◌, ◌<◌, ◌≡◌, refl, ap, ◌∙◌, List, [], ◌∷◌, arith}
use libhttp.Hpack.{MdelemData, mdelem_size}
use libhttp.Hpack.Dynamic.{DynamicTable, push_mdelem_data, update_max_table_size}
use libhttp.Hpack.Dynamic.Loop.{
  cost, total, IsLongestFit, IsAccounted, adjust_dynamic_table_size-IsAdjusted,
}

-- Nothing fits in front of an entry that does not fit.
front_too_large :
    {max_size : ℕ} (md : MdelemData) (older : List MdelemData) {kept : List MdelemData}
    → IsLongestFit max_size (md ∷ older) kept
    → max_size < cost md
    → kept ≡ []
front_too_large md older {kept = []} fit large = refl
front_too_large md older {kept = k ∷ ks} fit large =
    let split = fit.split in
    let same : md ≡ k = cc split in
    let size = ap cost same in let fits = fit.fits in absurd (omega arith)

pub record IsPushed (t : DynamicTable) (md : MdelemData) (r : DynamicTable) : Type 0 where
  pub accounted : IsAccounted r
  pub fit : IsLongestFit t.max_table_size (md ∷ t.entries) r.entries
  pub same_max : r.max_table_size ≡ t.max_table_size
  pub same_limit : r.max_table_size_limit ≡ t.max_table_size_limit

-- On a table whose accounting is exact, and which the new entry does not carry over 32 bits,
-- `push_mdelem_data` puts the entry in front and leaves the longest run of newest entries that fits
-- the maximum, the accounting exact again and both limits as they were.
pub push_mdelem_data-IsPushed :
    (t : DynamicTable) (md : MdelemData)
    → IsAccounted t
    → t.current_table_size + cost md < 2 ^ 32
    → IsPushed t md (push_mdelem_data t md)
unfolding push_mdelem_data
push_mdelem_data-IsPushed t md a h =
    let exact = a.exact in
    let r =
      adjust_dynamic_table_size-IsAdjusted
        (record t {
          current_table_size =
              ((t.current_table_size + mdelem_size md % 2 ^ 32) % 2 ^ 32 + 32) % 2 ^ 32;
          entries = md ∷ t.entries;
        })
        (record { exact = omega arith; narrow = omega arith }) in
    record {
      accounted = r.accounted;
      fit = r.fit;
      same_max = r.same_max;
      same_limit = r.same_limit;
    }

pub record IsResized (t : DynamicTable) (size : ℕ) (r : DynamicTable) : Type 0 where
  pub accounted : IsAccounted r
  pub fit : IsLongestFit size t.entries r.entries
  pub new_max : r.max_table_size ≡ size
  pub same_limit : r.max_table_size_limit ≡ t.max_table_size_limit

-- On a table whose accounting is exact, `update_max_table_size` takes the new maximum over, leaves
-- the longest run of newest entries that fits it, and keeps the accounting exact.
pub update_max_table_size-IsResized :
    (t : DynamicTable) (size : ℕ) → IsAccounted t → IsResized t size (update_max_table_size t size)
unfolding update_max_table_size
update_max_table_size-IsResized t size a =
    let r =
      adjust_dynamic_table_size-IsAdjusted (record t { max_table_size = size })
        (record { exact = a.exact; narrow = a.narrow }) in
    record { accounted = r.accounted; fit = r.fit; new_max = r.same_max; same_limit = r.same_limit }

-- An entry that is larger than the maximum empties the table (RFC 7541, 4.4), when the accounting
-- is exact and the entry does not carry it over 32 bits.
pub push_mdelem_data-too_large :
    (t : DynamicTable) (md : MdelemData)
    → IsAccounted t
    → t.current_table_size + cost md < 2 ^ 32
    → t.max_table_size < cost md
    → (push_mdelem_data t md).entries ≡ [] × (push_mdelem_data t md).current_table_size ≡ 0
push_mdelem_data-too_large t md a h large =
    let pushed = push_mdelem_data-IsPushed t md a h in
    let empty = front_too_large md t.entries pushed.fit large in
    (empty, pushed.accounted.exact ∙ ap total empty)
