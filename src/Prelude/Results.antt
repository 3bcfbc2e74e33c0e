-- ===== src/Prelude/Results.antt =====
-- The outcome of code that reads memory: a value, an error code of the protocol, or a read outside
-- the buffer, which C++ leaves undefined.
use Prim.Native.Nat.{ℕ, zero, suc, ◌+◌}
use mathlib.Core.List.{List, [], ◌∷◌}
use libhttp.Prelude.Tests.{leb, if◌then◌else◌}
use libhttp.Prelude.Lists.{length, take, drop}

pub data Result {ℓ} (A : Type ℓ) : Type ℓ where
  ok : A → Result A
  err : ℕ → Result A
  out_of_bounds : Result A

infixl 5 ◌>>=◌ ◌>>◌
abbrev pub ◌>>=◌ {ℓ κ} : {A : Type ℓ} {B : Type κ} → Result A → (A → Result B) → Result B
ok a >>= f = f a
err e >>= f = err e
out_of_bounds >>= f = out_of_bounds

abbrev pub ◌>>◌ {ℓ} : {B : Type ℓ} → Result (Unit {0}) → Result B → Result B
m >> k = m >>= λ _. k

-- `p[i]` in a buffer that ends where the list does.
abbrev pub read : List ℕ → ℕ → Result ℕ
read [] i = out_of_bounds
read (b ∷ bs) zero = ok b
read (b ∷ bs) (suc i) = read bs i

-- The `n` bytes at `p + i`.
abbrev pub view : List ℕ → ℕ → ℕ → Result (List ℕ)
view bs i n = if leb (i + n) (length bs) then ok (take n (drop i bs)) else out_of_bounds
