-- ===== src/Prelude/Bits.antt =====
-- Laws of `&` and `|` at variables: masks, single bits, and joining disjoint fields.
use Prim.Native.Nat.{
  ℕ, zero, suc, ◌+◌, ◌-◌, ◌*◌, ◌/◌, ◌%◌, ◌^◌, ◌≤◌, ◌<◌, min, max, bit_and, bit_or, digits,
  bit_and-bitwise, bit_or-bitwise,
}
use mathlib.Core.Path.{◌≡◌, refl, sym, ap, ◌∙◌}
use mathlib.Core.Bool.{Bool, true, ◌&&◌}
use native.Mathlib.Omega.{arith}
use native.Mathlib.Nat.{pow-suc, mul_comm, div-div-eq-div-mul}

-- The count of digits to go does not matter once it reaches the first number.
module _ (z : ℕ → ℕ) (f : ℕ → ℕ → ℕ) where
  digits_enough : (n m a b : ℕ) → a ≤ n → a ≤ m → digits z f n a b ≡ digits z f m a b
  digits_enough zero zero zero b p q = refl
  digits_enough zero (suc m) zero b p q = refl
  digits_enough (suc n) zero zero b p q = refl
  digits_enough (suc n) (suc m) zero b p q = refl
  digits_enough zero m (suc a) b p q = absurd (omega arith)
  digits_enough (suc n) zero (suc a) b p q = absurd (omega arith)
  digits_enough (suc n) (suc m) (suc a) b p q =
      omega (arith, digits_enough n m (suc a / 2) (b / 2) (omega arith) (omega arith))

pub zero-and : (b : ℕ) → bit_and 0 b ≡ 0
zero-and b = bit_and-bitwise 0 b

pub zero-or : (b : ℕ) → bit_or 0 b ≡ b
zero-or b = bit_or-bitwise 0 b

pub and_step : (a b : ℕ) → bit_and a b ≡ bit_and (a / 2) (b / 2) * 2 + min (a % 2) (b % 2)
and_step zero b = omega (arith, zero-and b, zero-and (b / 2))
and_step (suc a) b = omega (
  arith,
  bit_and-bitwise (suc a) b,
  bit_and-bitwise (suc a / 2) (b / 2),
  digits_enough (λ b. zero) min a (suc a / 2) (suc a / 2) (b / 2) (omega arith) (omega arith),
)

pub or_step : (a b : ℕ) → bit_or a b ≡ bit_or (a / 2) (b / 2) * 2 + max (a % 2) (b % 2)
or_step zero b = omega (arith, zero-or b, zero-or (b / 2))
or_step (suc a) b = omega (
  arith,
  bit_or-bitwise (suc a) b,
  bit_or-bitwise (suc a / 2) (b / 2),
  digits_enough (λ b. b) max a (suc a / 2) (suc a / 2) (b / 2) (omega arith) (omega arith),
)

and-zero_below : (n a : ℕ) → a ≤ n → bit_and a 0 ≡ 0
and-zero_below n zero h = refl
and-zero_below zero (suc a) h = absurd (omega arith)
and-zero_below (suc n) (suc a) h =
    omega (arith, and_step (suc a) 0, and-zero_below n (suc a / 2) (omega arith))

pub and-zero : (a : ℕ) → bit_and a 0 ≡ 0
and-zero a = and-zero_below a a (omega arith)

or-zero_below : (n a : ℕ) → a ≤ n → bit_or a 0 ≡ a
or-zero_below n zero h = refl
or-zero_below zero (suc a) h = absurd (omega arith)
or-zero_below (suc n) (suc a) h =
    omega (arith, or_step (suc a) 0, or-zero_below n (suc a / 2) (omega arith))

pub or-zero : (a : ℕ) → bit_or a 0 ≡ a
or-zero a = or-zero_below a a (omega arith)

two-pow-pos : (k : ℕ) → 0 < 2 ^ k
two-pow-pos zero = omega arith
two-pow-pos (suc k) = omega (arith, pow-suc 2 k, two-pow-pos k)

halve_mod : (a m : ℕ) → 0 < m → a / 2 % m * 2 + a % 2 ≡ a % (m * 2)
halve_mod a m h = grind arith

halve_div : (a m : ℕ) → a / (m * 2) ≡ a / 2 / m
halve_div a m = rw (mul_comm m 2) (sym (div-div-eq-div-mul a 2 m))

-- `a & (2^k - 1)` keeps the low k bits.
pub and-mask : (k a : ℕ) → bit_and a (2 ^ k - 1) ≡ a % 2 ^ k
and-mask zero a = omega (arith, and-zero a)
and-mask (suc k) a =
    and_step a (2 ^ suc k - 1)
    ∙ ap (λ (t : ℕ). bit_and (a / 2) t * 2 + min (a % 2) ((2 ^ suc k - 1) % 2)) half
    ∙ omega (
      arith,
      and-mask k (a / 2),
      halve_mod a (2 ^ k) (two-pow-pos k),
      ap (λ (t : ℕ). a % t) (pow-suc 2 k),
      pow-suc 2 k,
      two-pow-pos k,
    )
  where
    half : (2 ^ suc k - 1) / 2 ≡ 2 ^ k - 1
    half = omega (arith, pow-suc 2 k, two-pow-pos k)

-- `a & 2^k` keeps bit k.
pub and-bit : (k a : ℕ) → bit_and a (2 ^ k) ≡ a / 2 ^ k % 2 * 2 ^ k
and-bit zero a = omega (arith, and_step a 1, and-zero (a / 2))
and-bit (suc k) a =
    and_step a (2 ^ suc k)
    ∙ ap (λ (t : ℕ). bit_and (a / 2) t * 2 + min (a % 2) (2 ^ suc k % 2)) half
    ∙ omega (
      arith,
      and-bit k (a / 2),
      pow-suc 2 k,
      ap (λ (t : ℕ). a / t % 2 * t) (pow-suc 2 k),
      ap (λ (t : ℕ). t % 2 * (2 ^ k * 2)) (halve_div a (2 ^ k)),
    )
  where
    half : 2 ^ suc k / 2 ≡ 2 ^ k
    half = omega (arith, pow-suc 2 k)

-- Fields that share no bit are joined by a sum.
pub or-add : (k a b : ℕ) → b < 2 ^ k → bit_or (a * 2 ^ k) b ≡ a * 2 ^ k + b
or-add zero a b h = ground (arith, or-zero a)
or-add (suc k) a b h =
    or_step (a * 2 ^ suc k) b
    ∙ ap (λ (t : ℕ). bit_or t (b / 2) * 2 + max (a * 2 ^ suc k % 2) (b % 2)) half
    ∙ omega (
      arith,
      or-add k a (b / 2) (omega (arith, pow-suc 2 k)),
      ap (λ (t : ℕ). a * t) (pow-suc 2 k),
    )
  where
    half : a * 2 ^ suc k / 2 ≡ a * 2 ^ k
    half = omega (arith, ap (λ (t : ℕ). a * t) (pow-suc 2 k))

pub or-add_right : (k a b : ℕ) → b < 2 ^ k → bit_or b (a * 2 ^ k) ≡ b + a * 2 ^ k
or-add_right zero a b h = ground (arith, zero-or (a * 1))
or-add_right (suc k) a b h =
    or_step b (a * 2 ^ suc k)
    ∙ ap (λ (t : ℕ). bit_or (b / 2) t * 2 + max (b % 2) (a * 2 ^ suc k % 2)) half
    ∙ omega (
      arith,
      or-add_right k a (b / 2) (omega (arith, pow-suc 2 k)),
      ap (λ (t : ℕ). a * t) (pow-suc 2 k),
    )
  where
    half : a * 2 ^ suc k / 2 ≡ a * 2 ^ k
    half = omega (arith, ap (λ (t : ℕ). a * t) (pow-suc 2 k))

pub or_join : (k a x b : ℕ) → x ≡ a * 2 ^ k → b < 2 ^ k → bit_or x b ≡ x + b
or_join k a x b e h = rw e (or-add k a b h)

-- Over a small range, every value is checked by evaluation.
module _ (p : ℕ → Bool) where
  abbrev pub holds_below : ℕ → Bool
  holds_below zero = true
  holds_below (suc n) = p n && holds_below n

  pub holds_below→holds : (n x : ℕ) → holds_below n ≡ true → x < n → p x ≡ true
  holds_below→holds zero x h lt = absurd (omega arith)
  holds_below→holds (suc n) x h lt = ground (arith, holds_below→holds n x)
