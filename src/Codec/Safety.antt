-- ===== src/Codec/Safety.antt =====
-- What the parsers do on any payload: no read outside a complete frame, but for one that lacks its
-- padding field.
use libhttp.Prelude.{
  inl, inr, ◌⊎◌, ℕ, zero, suc, ◌+◌, ◌*◌, ◌/◌, ◌<◌, ◌≤◌, ◌≡◌, ◌≢◌, refl, List, [], ◌∷◌, Result, ok,
  err, out_of_bounds, read, view, true, length, drop, length-drop, arith, ◌⊎◌, inl, inr,
}
use libhttp.Types.{Http2FrameFlag, has_flag}
use libhttp.Wire.{get_uint16_from_be_stream, get_uint32_from_be_stream}
use libhttp.Frame.{FrameHdr}
use libhttp.Parser.{
  Unpadded, unpad, parse_priority_spec, parse_settings_entries, parse_http2_frame_data,
  parse_http2_frame_headers, parse_http2_frame_priority, parse_http2_frame_rst_stream,
  parse_http2_frame_settings, parse_http2_frame_push_promise, parse_http2_frame_ping,
  parse_http2_frame_goaway, parse_http2_frame_window_update, parse_http2_frame_continuation,
}

-- The call read nothing outside the buffer.
abbrev pub InBounds {ℓ} : {A : Type ℓ} → Result A → Type ℓ
InBounds r = r ≢ out_of_bounds

read-InBounds : (bs : List ℕ) (i : ℕ) → i < length bs → InBounds (read bs i)
read-InBounds [] i h = absurd (omega arith)
read-InBounds (b ∷ bs) zero h = λ e. cc
read-InBounds (b ∷ bs) (suc i) h = read-InBounds bs i (omega arith)

get_uint16-InBounds : (p : List ℕ) → 2 ≤ length p → InBounds (get_uint16_from_be_stream p)
unfolding get_uint16_from_be_stream
get_uint16-InBounds p h = ground (arith, read-InBounds p 0, read-InBounds p 1)

get_uint32-InBounds : (p : List ℕ) → 4 ≤ length p → InBounds (get_uint32_from_be_stream p)
unfolding get_uint32_from_be_stream
get_uint32-InBounds p h =
    ground (arith, read-InBounds p 0, read-InBounds p 1, read-InBounds p 2, read-InBounds p 3)

view-InBounds : (bs : List ℕ) (i n : ℕ) → i + n ≤ length bs → InBounds (view bs i n)
view-InBounds bs i n h = ground arith

parse_priority_spec-InBounds : (p : List ℕ) → 5 ≤ length p → InBounds (parse_priority_spec p)
unfolding parse_priority_spec
parse_priority_spec-InBounds p h =
    ground (arith, get_uint32-InBounds p, read-InBounds p 0, read-InBounds p 4)

parse_settings_entries-InBounds :
    (n : ℕ) (p : List ℕ) → 6 * n ≤ length p → InBounds (parse_settings_entries n p)
unfolding parse_settings_entries
parse_settings_entries-InBounds zero p h = λ e. cc
parse_settings_entries-InBounds (suc n) p h = ground (
  arith,
  get_uint16-InBounds p,
  get_uint32-InBounds (drop 2 p),
  parse_settings_entries-InBounds n (drop 6 p),
  length-drop 2 p,
  length-drop 6 p,
)

-- The buffer holds the frame's payload, and a padded frame has its padding field.
pub record IsComplete (hdr : FrameHdr) (input : List ℕ) : Type 0 where
  pub whole : hdr.length ≤ length input
  pub pad_present : has_flag hdr.flags Http2FrameFlag.padded ≡ true → 0 < hdr.length

Result-cases {ℓ} :
    {A : Type ℓ} (r : Result A) → InBounds r → ((a : A) × (r ≡ ok a)) ⊎ ((e : ℕ) × (r ≡ err e))
Result-cases (ok a) h = inl (a, refl)
Result-cases (err e) h = inr (e, refl)
Result-cases out_of_bounds h = absurd (h refl)

module _ (hdr : FrameHdr) (input : List ℕ) (c : IsComplete hdr input) where
  unpad-InBounds : InBounds (unpad hdr input)
  unfolding unpad
  unpad-InBounds = ground (arith, c.whole, c.pad_present, read-InBounds input 0)

  -- What `unpad` leaves of a complete frame lies within it.
  unpad-within : (p : Unpadded) → unpad hdr input ≡ ok p → p.offset + p.size ≤ length input
  unfolding unpad
  unpad-within p e = ground (arith, c.whole)

  data-InBounds : InBounds (parse_http2_frame_data hdr input)
  unfolding parse_http2_frame_data
  data-InBounds = elim (Result-cases (unpad hdr input) unpad-InBounds) [
    | inl (p, e) ↦ rw e (ground (arith, unpad-within p e))
    | inr (x, e) ↦ rw e (λ q. cc)
  ]

  headers-InBounds : InBounds (parse_http2_frame_headers hdr input)
  unfolding parse_http2_frame_headers
  headers-InBounds = elim (Result-cases (unpad hdr input) unpad-InBounds) [
    | inl (p, e) ↦ rw e (
        ground (
          arith,
          unpad-within p e,
          parse_priority_spec-InBounds (drop p.offset input),
          length-drop p.offset input,
        ))
    | inr (x, e) ↦ rw e (λ q. cc)
  ]

  push_promise-InBounds : InBounds (parse_http2_frame_push_promise hdr input)
  unfolding parse_http2_frame_push_promise
  push_promise-InBounds = elim (Result-cases (unpad hdr input) unpad-InBounds) [
    | inl (p, e) ↦ rw e (
        ground (
          arith,
          unpad-within p e,
          get_uint32-InBounds (drop p.offset input),
          read-InBounds input p.offset,
          length-drop p.offset input,
        ))
    | inr (x, e) ↦ rw e (λ q. cc)
  ]

-- The payload parser of each type reads inside the buffer, whatever the bytes, if the buffer holds
-- the `length` bytes that the header announces and a frame with the PADDED flag is not empty.
pub parsers-InBounds :
    (hdr : FrameHdr) (input : List ℕ)
    → IsComplete hdr input
    → InBounds (parse_http2_frame_data hdr input)
      × InBounds (parse_http2_frame_headers hdr input)
      × InBounds (parse_http2_frame_priority hdr input)
      × InBounds (parse_http2_frame_rst_stream hdr input)
      × InBounds (parse_http2_frame_settings hdr input)
      × InBounds (parse_http2_frame_push_promise hdr input)
      × InBounds (parse_http2_frame_ping hdr input)
      × InBounds (parse_http2_frame_goaway hdr input)
      × InBounds (parse_http2_frame_window_update hdr input)
      × InBounds (parse_http2_frame_continuation hdr input)
unfolding parse_http2_frame_priority parse_http2_frame_rst_stream parse_http2_frame_settings
    parse_http2_frame_ping parse_http2_frame_goaway parse_http2_frame_window_update
    parse_http2_frame_continuation
parsers-InBounds hdr input c =
    let four = get_uint32-InBounds input in
    let first = read-InBounds input 0 in
    (
      data-InBounds hdr input c,
      headers-InBounds hdr input c,
      ground (arith, c.whole, parse_priority_spec-InBounds input),
      ground (arith, c.whole, four),
      ground (arith, c.whole, parse_settings_entries-InBounds (hdr.length / 6) input),
      push_promise-InBounds hdr input c,
      ground (arith, c.whole),
      ground (arith, c.whole, four, first, get_uint32-InBounds (drop 4 input), length-drop 4 input),
      ground (arith, c.whole, four, first),
      ground (arith, c.whole),
    )

-- A frame with the PADDED flag and no payload, at the end of the buffer, makes the parsers of DATA,
-- HEADERS and PUSH_PROMISE read the byte behind the buffer.
pub padded_empty-out_of_bounds :
    (hdr : FrameHdr)
    → hdr.length ≡ 0
    → has_flag hdr.flags Http2FrameFlag.padded ≡ true
    → (parse_http2_frame_data hdr [] ≡ out_of_bounds)
      × (parse_http2_frame_headers hdr [] ≡ out_of_bounds)
      × (parse_http2_frame_push_promise hdr [] ≡ out_of_bounds)
unfolding parse_http2_frame_data parse_http2_frame_headers parse_http2_frame_push_promise unpad
padded_empty-out_of_bounds hdr e p = rw p (refl, refl, refl)
