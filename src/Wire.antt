-- ===== src/Wire.antt =====
-- src/utils/byte_order.h and byte_order.cc: numbers in network byte order, on a little-endian host.
pub mod RoundTrip
use libhttp.Prelude.{
  ℕ, zero, suc, ◌+◌, ◌*◌, ◌/◌, ◌%◌, ◌^◌, ◌<◌, ◌≡◌, List, [], ◌∷◌, Result, ok, ◌>>=◌, read, bit_or,
}
use mathlib.Core.List.{reverse}

abbrev pub IsByte : ℕ → Type 0
IsByte b = b < 256

-- What `memcpy` takes out of an unsigned value of `n` bytes: the lowest byte stands first.
pub host_bytes : ℕ → ℕ → List ℕ
host_bytes zero v = []
host_bytes (suc n) v = (v % 256) ∷ host_bytes n (v / 256)

pub from_host_bytes : List ℕ → ℕ
from_host_bytes [] = 0
from_host_bytes (b ∷ bs) = b + 256 * from_host_bytes bs

-- The first argument is `sizeof(T)`.
pub change_byte_order : ℕ → ℕ → ℕ
change_byte_order n v = from_host_bytes (reverse (host_bytes n v))

unfoldable pub put_uint16_in_be_stream : ℕ → List ℕ
unfolding host_bytes from_host_bytes change_byte_order
put_uint16_in_be_stream n = host_bytes 2 (change_byte_order 2 n)

unfoldable pub put_uint32_in_be_stream : ℕ → List ℕ
unfolding host_bytes from_host_bytes change_byte_order
put_uint32_in_be_stream n = host_bytes 4 (change_byte_order 4 n)

unfoldable pub get_uint16_from_be_stream : List ℕ → Result ℕ
get_uint16_from_be_stream p = do p0 ← read p 0; p1 ← read p 1; ok (bit_or (p0 * 2 ^ 8) p1 % 2 ^ 16)

unfoldable pub get_uint32_from_be_stream : List ℕ → Result ℕ
get_uint32_from_be_stream p = do
  p0 ← read p 0
  p1 ← read p 1
  p2 ← read p 2
  p3 ← read p 3
  ok (bit_or (bit_or (bit_or (p0 * 2 ^ 24 % 2 ^ 32) (p1 * 2 ^ 16)) (p2 * 2 ^ 8)) p3)
