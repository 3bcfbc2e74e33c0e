-- ===== src/Slice.antt =====
-- src/utils/slice.cc as far as the packers and encoders use it: a slice is the list of its bytes.
use libhttp.Prelude.{
  ℕ, List, [], ◌∷◌, Option, some, none, Bool, true, false, ◌&&◌, ◌≡◌, ◌↔◌, refl, ap, length,
  if◌then◌else◌, ◌==◌, arith, zero, suc, drop, ltb, ◌≤◌,
}

-- `MakeSliceByLength(n)`, then the bytes `written` in order. `none`: the writes run over the end of
-- the buffer, or leave a part of it uninitialised.
unfoldable pub fill : ℕ → List ℕ → Option (List ℕ)
fill n written = if length written == n then some written else none

-- `memcmp(a, b, n) == 0` on two slices of one size.
same_bytes : List ℕ → List ℕ → Bool
same_bytes [] [] = true
same_bytes [] (b ∷ bs) = false
same_bytes (a ∷ as') [] = false
same_bytes (a ∷ as') (b ∷ bs) = (a == b) && same_bytes as' bs

-- `slice::operator==`
unfoldable pub slice_eq : List ℕ → List ℕ → Bool
unfolding same_bytes
slice_eq s t = if length s == length t then same_bytes s t else false

same_bytes_iff : (s t : List ℕ) → (same_bytes s t ≡ true) ↔ (s ≡ t)
unfolding same_bytes
same_bytes_iff [] [] = ((λ h. refl), (λ h. refl))
same_bytes_iff [] (b ∷ bs) = ((λ h. cc), (λ h. cc))
same_bytes_iff (a ∷ as') [] = ((λ h. cc), (λ h. cc))
same_bytes_iff (a ∷ as') (b ∷ bs) =
    ((λ h. ground (arith, same_bytes_iff as' bs)), (λ h. ground (arith, same_bytes_iff as' bs)))

-- Slices compare equal exactly if they hold the same bytes.
pub slice_eq_iff : (s t : List ℕ) → (slice_eq s t ≡ true) ↔ (s ≡ t)
unfolding slice_eq
slice_eq_iff s t = (
  (λ h. ground (arith, same_bytes_iff s t)),
  (λ h. ground (arith, same_bytes_iff s t, ap {B = ℕ} length h)),
)

-- `slice::pop_front` drops bytes at the front, all of them at most.
unfoldable pub pop_front : List ℕ → ℕ → List ℕ
pop_front s remove_size =
    if remove_size == 0
    then s
    else drop (if ltb (length s) remove_size then length s else remove_size) s

drop_min : (s : List ℕ) (n : ℕ) → length s ≤ n → drop n s ≡ drop (length s) s
drop_min [] zero h = refl
drop_min [] (suc n) h = refl
drop_min (x ∷ s) zero h = absurd (omega arith)
drop_min (x ∷ s) (suc n) h = drop_min s n (omega arith)

pub pop_front-drop : (s : List ℕ) (n : ℕ) → pop_front s n ≡ drop n s
unfolding pop_front
pop_front-drop s zero = refl
pop_front-drop s (suc n) = ground (arith, drop_min s (suc n))
