-- ===== src/SliceBuffer/Moves.antt =====
-- What the operations of the slice buffer do to its bytes.
use libhttp.Prelude.{
  ◌⊎◌, ℕ, zero, suc, ◌+◌, ◌-◌, ◌^◌, ◌<◌, ◌≤◌, ◌≡◌, refl, sym, ap, ◌∙◌, inl, inr, true, false, List,
  [], ◌∷◌, ◌++◌, some, length, set, drop, All, All-append, length-append, length-drop, length-set,
  drop-append, append-nil, ◌&&◌, ◌||◌, ◌/◌, Bool-cases, ltb, leb, ◌==◌, arith,
}
use mathlib.Core.Path.{subst}
use libhttp.Slice.{pop_front, pop_front-drop}
use libhttp.SliceBuffer.{
  SliceBuffer, size_sub, slice_buffer_init, add_slice, compact, move_loop, move_header,
  get_buffer_length, front, pop_first,
}
use libhttp.SliceBuffer.Bytes.{
  concat, bytes, IsValid, IsAt, IsAt-cases, concat-append, drop-append_within, drop-drop,
}

-- The buffer `r` is in order, and holds the bytes given.
pub record Holds (r : SliceBuffer) (bs : List ℕ) : Type 0 where
  pub valid : IsValid r
  pub content : bytes r ≡ bs

pub slice_buffer_init-Holds : Holds slice_buffer_init []
unfolding slice_buffer_init
slice_buffer_init-Holds = record {
  valid = record { within = omega arith; counted = refl; narrow = omega arith; filled = tt };
  content = refl;
}

-- `add_slice` puts the bytes of the slice behind those the buffer holds, when both fit `size_t`.
pub add_slice-Holds :
    (b : SliceBuffer) (s : List ℕ)
    → IsValid b
    → length (bytes b) + length s < 2 ^ 64
    → Holds (add_slice b s) (bytes b ++ s)
unfolding add_slice
add_slice-Holds b [] v h = record { valid = v; content = sym (append-nil (bytes b)) }
add_slice-Holds b (x ∷ xs) v h =
    let behind = drop-append_within b.start b.vs ((x ∷ xs) ∷ []) v.within in
    let content : concat (drop b.start (b.vs ++ ((x ∷ xs) ∷ []))) ≡ bytes b ++ (x ∷ xs) =
      ap concat behind
      ∙ concat-append (drop b.start b.vs) ((x ∷ xs) ∷ [])
      ∙ ap (λ zs. bytes b ++ zs) (append-nil (x ∷ xs)) in
    let sum = ap length content ∙ length-append (bytes b) (x ∷ xs) in
    let longer = length-append b.vs ((x ∷ xs) ∷ []) in
    let within = v.within in
    let counted = v.counted in
    record {
      valid = record {
        within = omega arith;
        counted = omega arith;
        narrow = omega arith;
        filled = rw behind (
            All-append (λ s. 0 < length s) (drop b.start b.vs) ((x ∷ xs) ∷ []) v.filled
              (omega arith, tt));
      };
      content = content;
    }

compact-Holds : (b : SliceBuffer) (bs : List ℕ) → Holds b bs → Holds (compact b) bs
unfolding compact
compact-Holds b bs h =
    elim (Bool-cases
      (ltb 0 b.start && (leb (length b.vs) b.start || ltb (length b.vs / 2) b.start))) [
        | inl due ↦
            let v = h.valid in
            rw due (record {
              valid = record {
                within = omega arith;
                counted = v.counted;
                narrow = v.narrow;
                filled = v.filled;
              };
              content = h.content;
            })
        | inr early ↦ rw early h
      ]

-- The round that ends inside the slice in front.
move-inside :
    (b : SliceBuffer) (n : ℕ) (front : List ℕ)
    → IsValid b
    → IsAt b.vs b.start front
    → n < length front
    → Holds
        (record b {
          vs = set b.vs b.start (pop_front front n);
          buffer_length = size_sub b.buffer_length n;
        })
        (drop n (bytes b))
move-inside b n front v here h =
    let rest = drop (suc b.start) b.vs in
    let left = here.put (pop_front front n) in
    let short : pop_front front n ≡ drop n front = pop_front-drop front n in
    let is : bytes b ≡ front ++ concat rest = ap concat here.left in
    let same_length = length-set b.vs b.start (pop_front front n) in
    let content : concat (drop b.start (set b.vs b.start (pop_front front n))) ≡ drop n (bytes b) =
      ap concat left
      ∙ ap (λ xs. xs ++ concat rest) short
      ∙ sym (drop-append_within n front (concat rest) (omega arith))
      ∙ ap (drop n) (sym is) in
    let fewer = length-drop n front in
    let all_fewer = ap length content ∙ length-drop n (bytes b) in
    let size = ap length is ∙ length-append front (concat rest) in
    let counted = v.counted in
    let within = v.within in
    let narrow = v.narrow in
    let filled : All (λ s. 0 < length s) (front ∷ rest) =
      subst (All (λ s. 0 < length s)) here.left v.filled in
    record {
      valid = record {
        within = rw same_length within;
        counted = omega arith;
        narrow = omega arith;
        filled = rw left (rw short (omega arith), filled.1);
      };
      content = content;
    }

-- What is left behind the slice in front.
move-past :
    (b : SliceBuffer) (front : List ℕ)
    → IsValid b
    → IsAt b.vs b.start front
    → Holds
        (record b { start = suc b.start; buffer_length = size_sub b.buffer_length (length front) })
        (drop (length front) (bytes b))
move-past b front v here =
    let rest = drop (suc b.start) b.vs in
    let is : bytes b ≡ front ++ concat rest = ap concat here.left in
    let size = ap length is ∙ length-append front (concat rest) in
    let counted = v.counted in
    let narrow = v.narrow in
    let below = here.below in
    let filled : All (λ s. 0 < length s) (front ∷ rest) =
      subst (All (λ s. 0 < length s)) here.left v.filled in
    record {
      valid = record {
        within = omega arith;
        counted = omega arith;
        narrow = omega arith;
        filled = filled.1;
      };
      content = sym (ap (drop (length front)) is ∙ drop-append front (concat rest) refl);
    }

move_loop-Holds :
    (fuel : ℕ) (b : SliceBuffer) (remaining : ℕ)
    → IsValid b
    → length b.vs ≤ b.start + fuel
    → remaining ≤ length (bytes b)
    → Holds (move_loop fuel b remaining) (drop remaining (bytes b))
unfolding move_loop
move_loop-Holds zero b zero v enough h = record { valid = v; content = refl }
move_loop-Holds (suc fuel) b zero v enough h = record { valid = v; content = refl }
move_loop-Holds zero b (suc r) v enough h = elim (IsAt-cases b.start b.vs) [
  | inl (none_there, gone, past) ↦
      let no_bytes = ap (λ vs. length (concat vs)) gone in absurd (omega arith)
  | inr (first, here) ↦ let below = here.below in absurd (omega arith)
]
move_loop-Holds (suc fuel) b (suc r) v enough h = elim (IsAt-cases b.start b.vs) [
  | inl (none_there, gone, past) ↦
      let no_bytes = ap (λ vs. length (concat vs)) gone in absurd (omega arith)
  | inr (first, here) ↦ elim (Bool-cases (ltb (suc r) (length first))) [
    | inl inside ↦
        rw (move_loop, here.here, inside) (move-inside b (suc r) first v here (ground arith))
    | inr past ↦
        let next = move-past b first v here in
        let reach : length first ≤ suc r = ground arith in
        let fewer = ap length next.content ∙ length-drop (length first) (bytes b) in
        let done =
          move_loop-Holds fuel
            (record b {
              start = suc b.start;
              buffer_length = size_sub b.buffer_length (length first);
            })
            (suc r - length first) next.valid (omega arith) (omega arith) in
        rw (move_loop, here.here, past)
          (record {
            valid = done.valid;
            content =
                done.content
                ∙ ap (drop (suc r - length first)) next.content
                ∙ drop-drop (length first) (suc r - length first) (bytes b) {k = suc r}
                    (omega arith);
          })
  ]
]

-- `move_header` takes the bytes asked for off the front when there are as many, and otherwise
-- refuses and changes nothing.
pub move_header-Holds :
    (b : SliceBuffer) (len : ℕ)
    → IsValid b
    → ((len ≤ length (bytes b))
        × ((move_header b len).0 ≡ true)
        × Holds (move_header b len).1 (drop len (bytes b)))
      ⊎ ((length (bytes b) < len) × (move_header b len ≡ (false, b)))
unfolding move_header get_buffer_length
move_header-Holds b zero v =
    let counted = v.counted in
    let any : ltb b.buffer_length 0 ≡ false = ground arith in
    inl (omega arith, rw any refl, rw any (record { valid = v; content = refl }))
move_header-Holds b (suc n) v =
    let counted = v.counted in
    let some_asked : (suc n == 0) ≡ false = ground arith in
    elim (Bool-cases (ltb b.buffer_length (suc n))) [
      | inl short ↦ inr (ground arith, rw short refl)
      | inr enough ↦
          let h : suc n ≤ length (bytes b) = ground arith in
          let moved = move_loop-Holds (length b.vs) b (suc n) v (omega arith) h in
          inl (
            h,
            rw (enough, some_asked) refl,
            rw (enough, some_asked)
                (compact-Holds (move_loop (length b.vs) b (suc n)) (drop (suc n) (bytes b)) moved),
          )
    ]

-- `pop_front` takes the slice in front off.
pub pop_first-Holds :
    (b : SliceBuffer) (s : List ℕ)
    → IsValid b
    → front b ≡ some s
    → Holds (pop_first b) (drop (length s) (bytes b))
unfolding front pop_first
pop_first-Holds b s v h = elim (IsAt-cases b.start b.vs) [
  | inl (none_there, gone, past) ↦ absurd (cc (none_there, h))
  | inr (first, here) ↦
      let same : first ≡ s = cc (here.here, h) in
      rw (pop_first, here.here, sym same)
        (compact-Holds
          (record b {
            start = suc b.start;
            buffer_length = size_sub b.buffer_length (length first);
          })
          (drop (length first) (bytes b)) (move-past b first v here))
]
