-- ===== src/SliceBuffer/Reads.antt =====
-- What is read out of the slice buffer without taking it off.
use libhttp.Prelude.{
  ◌⊎◌, ℕ, suc, ◌-◌, ◌<◌, ◌≤◌, ◌≡◌, refl, sym, ap, ◌∙◌, ◌↔◌, inl, inr, true, false, List, [], ◌∷◌,
  ◌++◌, some, none, length, take, drop, All, length-append, length-drop, append-nil, Bool-cases,
  leb, ◌==◌, arith,
}
use mathlib.Core.Path.{subst}
use libhttp.Slice.{fill}
use libhttp.SliceBuffer.{SliceBuffer, copy_to_buffer, get_buffer_length, empty, merge, slice_count}
use libhttp.SliceBuffer.Bytes.{
  concat, bytes, IsValid, IsAt-cases, merge_loop-concat, copy_loop-take,
}

-- `copy_to_buffer` copies the bytes at the front when as many are held as are asked for, and
-- otherwise fails its assertion.
pub copy_to_buffer-take :
    (b : SliceBuffer) (len : ℕ)
    → IsValid b
    → ((len ≤ length (bytes b)) × (copy_to_buffer b len ≡ some (take len (bytes b))))
      ⊎ ((length (bytes b) < len) × (copy_to_buffer b len ≡ none))
unfolding copy_to_buffer get_buffer_length
copy_to_buffer-take b len v =
    let counted = v.counted in
    elim (Bool-cases (leb len b.buffer_length)) [
      | inl enough ↦
          inl (ground arith, rw enough (ap some (copy_loop-take (drop b.start b.vs) len)))
      | inr short ↦ inr (ground arith, rw short refl)
    ]

-- `empty` tells whether no byte is held.
pub empty_iff : (b : SliceBuffer) → IsValid b → (empty b ≡ true) ↔ (bytes b ≡ [])
unfolding empty
empty_iff b v = elim (IsAt-cases b.start b.vs) [
  | inl (none_there, gone, past) ↦ ((λ h. ap concat gone), (λ h. ground arith))
  | inr (front, here) ↦
      let below = here.below in
      let filled : All (λ s. 0 < length s) (front ∷ drop (suc b.start) b.vs) =
        subst (All (λ s. 0 < length s)) here.left v.filled in
      let first = filled.0 in
      let size =
        ap length (ap concat here.left) ∙ length-append front (concat (drop (suc b.start) b.vs)) in
      ((λ h. absurd (ground arith)), (λ h. let no_bytes = ap length h in absurd (omega arith)))
]

no_elements : (vs : List (List ℕ)) → length vs ≡ 0 → vs ≡ []
no_elements [] h = refl
no_elements (x ∷ vs) h = absurd (omega arith)

-- `merge` gives all the bytes, in a buffer of the length counted.
pub merge-bytes : (b : SliceBuffer) → IsValid b → merge b ≡ some (bytes b)
unfolding merge slice_count get_buffer_length fill
merge-bytes b v = elim (IsAt-cases b.start b.vs) [
  | inl (none_there, gone, past) ↦
      let zero_left : (length b.vs - b.start == 0) ≡ true = ground arith in
      rw zero_left (ap some (sym (ap concat gone)))
  | inr (first, here) ↦
      let below = here.below in
      let some_left : (length b.vs - b.start == 0) ≡ false = ground arith in
      elim (Bool-cases (length b.vs - b.start == 1)) [
        | inl single ↦
            let last : drop (suc b.start) b.vs ≡ [] =
              no_elements (drop (suc b.start) b.vs)
                (length-drop (suc b.start) b.vs ∙ (ground arith)) in
            rw (some_left, single)
              (here.here
                ∙ ap some (
                    sym (
                      ap concat here.left ∙ ap (λ vs. first ++ concat vs) last ∙ append-nil first)))
        | inr several ↦
            let all = merge_loop-concat (drop b.start b.vs) in
            let counted = v.counted in
            let full : (length (bytes b) == b.buffer_length) ≡ true = ground arith in
            rw (some_left, several, all, full) refl
      ]
]
