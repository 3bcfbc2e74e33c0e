-- ===== src/Types/Flags.antt =====
-- How clearing and setting a flag changes a byte of flags. Each law is a table of 256 entries.
use libhttp.Prelude.{ℕ, ◌<◌, ◌≡◌, refl, Bool, true, false, not, ◌&&◌, ltb, bit_or, arith}
use libhttp.Prelude.Bits.{holds_below, holds_below→holds}
use libhttp.Types.{end_stream, padded, priority, has_flag, clear_flag}

same : Bool → Bool → Bool
same true b = b
same false b = not b

same→eq : (a b : Bool) → same a b ≡ true → a ≡ b
unfolding same
same→eq true b h = ground arith
same→eq false b h = ground arith

abbrev clears_padded : ℕ → Bool
clears_padded x =
    let y = clear_flag x padded in
    ltb y 256 && (not (has_flag y padded) && same (has_flag y end_stream) (has_flag x end_stream))

clears_padded_table : holds_below clears_padded 256 ≡ true
unfolding has_flag clear_flag same
clears_padded_table = refl

-- Clearing PADDED leaves a byte, without PADDED, and END_STREAM as it was.
pub clear_padded :
    (x : ℕ)
    → x < 256
    → (clear_flag x padded < 256)
      × (has_flag (clear_flag x padded) padded ≡ false)
      × (has_flag (clear_flag x padded) end_stream ≡ has_flag x end_stream)
clear_padded x h = ground (
  arith,
  holds_below→holds clears_padded 256 x clears_padded_table h,
  same→eq (has_flag (clear_flag x padded) end_stream) (has_flag x end_stream),
)

abbrev clears_end_stream : ℕ → Bool
clears_end_stream x =
    let y = clear_flag x end_stream in
    ltb y 256 && (not (has_flag y end_stream) && same (has_flag y padded) (has_flag x padded))

clears_end_stream_table : holds_below clears_end_stream 256 ≡ true
unfolding has_flag clear_flag same
clears_end_stream_table = refl

-- Clearing END_STREAM leaves a byte, without END_STREAM, and PADDED as it was.
pub clear_end_stream :
    (x : ℕ)
    → x < 256
    → (clear_flag x end_stream < 256)
      × (has_flag (clear_flag x end_stream) end_stream ≡ false)
      × (has_flag (clear_flag x end_stream) padded ≡ has_flag x padded)
clear_end_stream x h = ground (
  arith,
  holds_below→holds clears_end_stream 256 x clears_end_stream_table h,
  same→eq (has_flag (clear_flag x end_stream) padded) (has_flag x padded),
)

abbrev sets_end_stream : ℕ → Bool
sets_end_stream x =
    let y = bit_or x 1 in
    ltb y 256 && (has_flag y end_stream && same (has_flag y padded) (has_flag x padded))

sets_end_stream_table : holds_below sets_end_stream 256 ≡ true
unfolding has_flag same
sets_end_stream_table = refl

-- `|= END_STREAM` leaves a byte, with END_STREAM, and PADDED as it was.
pub set_end_stream :
    (x : ℕ)
    → x < 256
    → (bit_or x 1 < 256)
      × (has_flag (bit_or x 1) end_stream ≡ true)
      × (has_flag (bit_or x 1) padded ≡ has_flag x padded)
set_end_stream x h = ground (
  arith,
  holds_below→holds sets_end_stream 256 x sets_end_stream_table h,
  same→eq (has_flag (bit_or x 1) padded) (has_flag x padded),
)

abbrev clears_priority : ℕ → Bool
clears_priority x =
    let y = clear_flag x priority in
    ltb y 256 && (not (has_flag y priority) && same (has_flag y padded) (has_flag x padded))

clears_priority_table : holds_below clears_priority 256 ≡ true
unfolding has_flag clear_flag same
clears_priority_table = refl

-- Clearing PRIORITY leaves a byte, without PRIORITY, and PADDED as it was.
pub clear_priority :
    (x : ℕ)
    → x < 256
    → (clear_flag x priority < 256)
      × (has_flag (clear_flag x priority) priority ≡ false)
      × (has_flag (clear_flag x priority) padded ≡ has_flag x padded)
clear_priority x h = ground (
  arith,
  holds_below→holds clears_priority 256 x clears_priority_table h,
  same→eq (has_flag (clear_flag x priority) padded) (has_flag x padded),
)
