-- ===== src/SliceBuffer/Bytes.antt =====
-- The bytes that a slice buffer stands for, and when its fields agree with them.
use libhttp.Prelude.{
  ℕ, zero, suc, ◌+◌, ◌-◌, ◌^◌, ◌<◌, ◌≤◌, ◌≡◌, refl, sym, ap, ◌∙◌, ◌⊎◌, inl, inr, List, [], ◌∷◌,
  ◌++◌, some, none, length, get_elem?, set, take, drop, All, append_assoc, min, ◌==◌, false, arith,
}
use libhttp.SliceBuffer.{SliceBuffer, copy_loop, merge_loop}

abbrev pub concat : List (List ℕ) → List ℕ
concat [] = []
concat (s ∷ rest) = s ++ concat rest

abbrev pub bytes : SliceBuffer → List ℕ
bytes b = concat (drop b.start b.vs)

-- The length counted is the number of bytes left, and no slice left is empty.
pub record IsValid (b : SliceBuffer) : Type 0 where
  pub within : b.start ≤ length b.vs
  pub counted : b.buffer_length ≡ length (bytes b)
  pub narrow : length (bytes b) < 2 ^ 64
  pub filled : All (λ s. 0 < length s) (drop b.start b.vs)

pub concat-append : (xs ys : List (List ℕ)) → concat (xs ++ ys) ≡ concat xs ++ concat ys
concat-append [] ys = refl
concat-append (x ∷ xs) ys =
    ap (λ zs. x ++ zs) (concat-append xs ys) ∙ sym (append_assoc x (concat xs) (concat ys))

-- What stands at an index, and what a drop to it leaves.
pub record IsAt {ℓ} {A : Type ℓ} (xs : List A) (n : ℕ) (x : A) : Type ℓ where
  pub here : get_elem? xs n ≡ some x
  pub left : drop n xs ≡ x ∷ drop (suc n) xs
  pub below : n < length xs
  pub put : (y : A) → drop n (set xs n y) ≡ y ∷ drop (suc n) xs

pub IsAt-cases {ℓ} :
    {A : Type ℓ} (n : ℕ) (xs : List A)
    → ((get_elem? xs n ≡ none) × (drop n xs ≡ []) × (length xs ≤ n)) ⊎ ((x : A) × IsAt xs n x)
IsAt-cases zero [] = inl (refl, refl, omega arith)
IsAt-cases (suc n) [] = inl (refl, refl, omega arith)
IsAt-cases zero (x ∷ xs) =
    inr (x, record { here = refl; left = refl; below = omega arith; put = λ y. refl })
IsAt-cases (suc n) (x ∷ xs) = elim (IsAt-cases n xs) [
  | inl (none_there, empty, past) ↦ inl (none_there, empty, omega arith)
  | inr (y, at_n) ↦ inr (
    y,
    record {
      here = at_n.here;
      left = at_n.left;
      below = let b = at_n.below in omega arith;
      put = at_n.put;
    },
  )
]

pub drop-append_within {ℓ} :
    {A : Type ℓ} (n : ℕ) (xs ys : List A) → n ≤ length xs → drop n (xs ++ ys) ≡ drop n xs ++ ys
drop-append_within zero xs ys h = refl
drop-append_within (suc n) [] ys h = absurd (omega arith)
drop-append_within (suc n) (x ∷ xs) ys h = drop-append_within n xs ys (omega arith)

pub drop-append_past {ℓ} :
    {A : Type ℓ} (n : ℕ) (xs ys : List A)
    → length xs ≤ n
    → drop n (xs ++ ys) ≡ drop (n - length xs) ys
drop-append_past zero [] ys h = refl
drop-append_past (suc n) [] ys h = let same : suc n - 0 ≡ suc n = omega arith in rw same refl
drop-append_past zero (x ∷ xs) ys h = absurd (omega arith)
drop-append_past (suc n) (x ∷ xs) ys h =
    let same : suc n - suc (length xs) ≡ n - length xs = omega arith in
    rw same (drop-append_past n xs ys (omega arith))

pub drop-drop {ℓ} :
    {A : Type ℓ} (m n : ℕ) (xs : List A) {k : ℕ} → m + n ≡ k → drop n (drop m xs) ≡ drop k xs
drop-drop zero n xs {k = k} h = let same : n ≡ k = omega arith in rw same refl
drop-drop (suc m) zero [] {k = zero} h = refl
drop-drop (suc m) zero [] {k = suc k} h = refl
drop-drop (suc m) (suc n) [] {k = zero} h = refl
drop-drop (suc m) (suc n) [] {k = suc k} h = refl
drop-drop (suc m) n (x ∷ xs) {k = zero} h = absurd (omega arith)
drop-drop (suc m) n (x ∷ xs) {k = suc k} h = drop-drop m n xs (omega arith)

pub take-append_min {ℓ} :
    {A : Type ℓ} (n : ℕ) (xs ys : List A)
    → take n (xs ++ ys) ≡ take (min n (length xs)) xs ++ take (n - min n (length xs)) ys
take-append_min zero xs ys = let none_of : min 0 (length xs) ≡ 0 = omega arith in rw none_of refl
take-append_min (suc n) [] ys =
    let none_of : min (suc n) 0 ≡ 0 = omega arith in
    let all_of : suc n - 0 ≡ suc n = omega arith in rw (none_of, all_of) refl
take-append_min (suc n) (x ∷ xs) ys =
    let next : min (suc n) (suc (length xs)) ≡ suc (min n (length xs)) = omega arith in
    let less : suc n - suc (min n (length xs)) ≡ n - min n (length xs) = omega arith in
    rw (next, less) (ap (◌∷◌ x) (take-append_min n xs ys))

pub merge_loop-concat : (vs : List (List ℕ)) → merge_loop vs ≡ concat vs
unfolding merge_loop
merge_loop-concat [] = refl
merge_loop-concat (s ∷ rest) = ap (λ bs. s ++ bs) (merge_loop-concat rest)

pub copy_loop-take : (vs : List (List ℕ)) (left : ℕ) → copy_loop vs left ≡ take left (concat vs)
unfolding copy_loop
copy_loop-take [] zero = refl
copy_loop-take [] (suc left) = refl
copy_loop-take (s ∷ rest) zero = refl
copy_loop-take (s ∷ rest) (suc left) =
    let some_left : (suc left == 0) ≡ false = ground arith in
    rw some_left (
      ap (λ zs. take (min (suc left) (length s)) s ++ zs)
        (copy_loop-take rest (suc left - min (suc left) (length s)))
      ∙ sym (take-append_min (suc left) s (concat rest)))
