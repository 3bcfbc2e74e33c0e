-- ===== src/Wire/RoundTrip.antt =====
-- Numbers written in network byte order are read back, and bytes read are written back.
use libhttp.Prelude.{
  ℕ, zero, suc, ◌+◌, ◌*◌, ◌/◌, ◌%◌, ◌^◌, ◌<◌, ◌≡◌, refl, sym, ap, ◌∙◌, List, [], ◌∷◌, ◌++◌, ok,
  length, All, length-append, All-append, arith, bit_or,
}
use libhttp.Prelude.Bits.{or-add, or_join}
use libhttp.Wire.{
  IsByte, host_bytes, from_host_bytes, change_byte_order, put_uint16_in_be_stream,
  put_uint32_in_be_stream, get_uint16_from_be_stream, get_uint32_from_be_stream,
}
use mathlib.Core.List.{reverse, reverse-cons, reverse-reverse}
use native.Mathlib.Nat.{pow-suc}

length-host_bytes : (n v : ℕ) → length (host_bytes n v) ≡ n
unfolding host_bytes
length-host_bytes zero v = refl
length-host_bytes (suc n) v = ap suc (length-host_bytes n (v / 256))

host_bytes-IsByte : (n v : ℕ) → All IsByte (host_bytes n v)
unfolding host_bytes
host_bytes-IsByte zero v = tt
host_bytes-IsByte (suc n) v = (omega arith, host_bytes-IsByte n (v / 256))

host_bytes-from_host_bytes :
    (bs : List ℕ) → All IsByte bs → host_bytes (length bs) (from_host_bytes bs) ≡ bs
unfolding host_bytes from_host_bytes
host_bytes-from_host_bytes [] h = refl
host_bytes-from_host_bytes (b ∷ bs) (hb, hbs) =
    ground (arith, host_bytes-from_host_bytes bs hbs, quotient)
  where
    quotient : (b + 256 * from_host_bytes bs) / 256 ≡ from_host_bytes bs
    quotient = omega arith

from_host_bytes-host_bytes : (n v : ℕ) → v < 256 ^ n → from_host_bytes (host_bytes n v) ≡ v
unfolding host_bytes from_host_bytes
from_host_bytes-host_bytes zero v h = omega arith
from_host_bytes-host_bytes (suc n) v h =
    omega (arith, from_host_bytes-host_bytes n (v / 256) (omega (arith, pow-suc 256 n)))

length-reverse : (xs : List ℕ) → length (reverse xs) ≡ length xs
length-reverse [] = refl
length-reverse (x ∷ xs) =
    omega
      (arith, ap length (reverse-cons x xs), length-append (reverse xs) (x ∷ []), length-reverse xs)

reverse-IsByte : (xs : List ℕ) → All IsByte xs → All IsByte (reverse xs)
reverse-IsByte [] h = tt
reverse-IsByte (x ∷ xs) (hx, hxs) =
    rw (reverse-cons x xs)
      (All-append IsByte (reverse xs) (x ∷ []) (reverse-IsByte xs hxs) (hx, tt))

-- In memory, a value whose byte order was changed shows its bytes reversed.
host_bytes-change_byte_order :
    (n v : ℕ) → host_bytes n (change_byte_order n v) ≡ reverse (host_bytes n v)
unfolding change_byte_order
host_bytes-change_byte_order n v =
    let bs = reverse (host_bytes n v) in
    ap (λ (k : ℕ). host_bytes k (from_host_bytes bs))
      (sym (length-reverse (host_bytes n v) ∙ length-host_bytes n v))
    ∙ host_bytes-from_host_bytes bs (reverse-IsByte _ (host_bytes-IsByte n v))

-- For every width of n bytes, changing the byte order twice gives back each value that fits n bytes.
pub change_byte_order-change_byte_order :
    (n v : ℕ) → v < 256 ^ n → change_byte_order n (change_byte_order n v) ≡ v
change_byte_order-change_byte_order n v h =
    unfold change_byte_order in
    (ap (λ (bs : List ℕ). from_host_bytes (reverse bs)) (host_bytes-change_byte_order n v)
      ∙ ap from_host_bytes (reverse-reverse (host_bytes n v))
      ∙ from_host_bytes-host_bytes n v h)

-- The four bytes, highest first.
pub put_uint32_bytes :
    (n : ℕ)
    → put_uint32_in_be_stream n
      ≡ (n / 2 ^ 24 % 256) ∷ (n / 2 ^ 16 % 256) ∷ (n / 2 ^ 8 % 256) ∷ (n % 256) ∷ []
unfolding put_uint32_in_be_stream
put_uint32_bytes n = host_bytes-change_byte_order 4 n ∙ ground arith

pub put_uint16_bytes : (n : ℕ) → put_uint16_in_be_stream n ≡ (n / 2 ^ 8 % 256) ∷ (n % 256) ∷ []
unfolding put_uint16_in_be_stream
put_uint16_bytes n = host_bytes-change_byte_order 2 n

pub get_uint32_bytes :
    (p0 p1 p2 p3 : ℕ) (rest : List ℕ)
    → IsByte p0
    → IsByte p1
    → IsByte p2
    → IsByte p3
    → get_uint32_from_be_stream (p0 ∷ p1 ∷ p2 ∷ p3 ∷ rest)
      ≡ ok (p0 * 2 ^ 24 + p1 * 2 ^ 16 + p2 * 2 ^ 8 + p3)
unfolding get_uint32_from_be_stream
get_uint32_bytes p0 p1 p2 p3 rest h0 h1 h2 h3 =
    ap (λ (t : ℕ). ok (bit_or (bit_or t (p2 * 2 ^ 8)) p3)) first
    ∙ ap (λ (t : ℕ). ok (bit_or t p3)) second
    ∙ ap ok third
  where
    first : bit_or (p0 * 2 ^ 24 % 2 ^ 32) (p1 * 2 ^ 16) ≡ p0 * 2 ^ 24 + p1 * 2 ^ 16
    first = or_join 24 p0 _ _ (omega arith) (omega arith) ∙ omega arith

    second :
        bit_or (p0 * 2 ^ 24 + p1 * 2 ^ 16) (p2 * 2 ^ 8) ≡ p0 * 2 ^ 24 + p1 * 2 ^ 16 + p2 * 2 ^ 8
    second = or_join 16 (p0 * 2 ^ 8 + p1) _ _ (omega arith) (omega arith)

    third :
        bit_or (p0 * 2 ^ 24 + p1 * 2 ^ 16 + p2 * 2 ^ 8) p3
        ≡ p0 * 2 ^ 24 + p1 * 2 ^ 16 + p2 * 2 ^ 8 + p3
    third = or_join 8 (p0 * 2 ^ 16 + p1 * 2 ^ 8 + p2) _ _ (omega arith) (omega arith)

pub get_uint16_bytes :
    (p0 p1 : ℕ) (rest : List ℕ)
    → IsByte p0
    → IsByte p1
    → get_uint16_from_be_stream (p0 ∷ p1 ∷ rest) ≡ ok (p0 * 2 ^ 8 + p1)
unfolding get_uint16_from_be_stream
get_uint16_bytes p0 p1 rest h0 h1 = ap ok (omega (arith, or-add 8 p0 p1 h1))

-- Every 32-bit number is read back from where it was written, whatever bytes follow it.
pub get_uint32-put_uint32 :
    (n : ℕ) (rest : List ℕ)
    → n < 2 ^ 32
    → get_uint32_from_be_stream (put_uint32_in_be_stream n ++ rest) ≡ ok n
get_uint32-put_uint32 n rest h = rw (put_uint32_bytes n) (
    get_uint32_bytes _ _ _ _ rest (omega arith) (omega arith) (omega arith) (omega arith)
    ∙ ap ok (omega arith))

-- Every 16-bit number is read back from where it was written, whatever bytes follow it.
pub get_uint16-put_uint16 :
    (n : ℕ) (rest : List ℕ)
    → n < 2 ^ 16
    → get_uint16_from_be_stream (put_uint16_in_be_stream n ++ rest) ≡ ok n
get_uint16-put_uint16 n rest h =
    rw (put_uint16_bytes n)
      (get_uint16_bytes _ _ rest (omega arith) (omega arith) ∙ ap ok (omega arith))
