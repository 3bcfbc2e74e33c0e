-- ===== src/Codec/Built.antt =====
-- The frames that the builders of src/http2/frame.cc make, from one end to the other.
use libhttp.Prelude.{
  ℕ, ◌+◌, ◌*◌, ◌%◌, ◌^◌, ◌<◌, ◌≤◌, ◌≡◌, refl, List, Option, none, some, false, Bool, err, length,
  append-nil, All, arith, Bool-cases, inl, inr,
}
use libhttp.Types.{Http2ErrorCode, error_code, Http2FrameFlag, has_flag, clear_flag}
use libhttp.Types.Flags.{clear_priority}
use libhttp.Frame.{PrioritySpec, SettingsEntry, http2_frame_header_init}
use libhttp.Frame.Build.{
  build_http2_frame_settings, build_http2_frame_ping, build_http2_frame_goaway,
  build_http2_frame_window_update, build_http2_frame_headers, build_http2_frame_rst_stream,
  build_http2_frame_priority,
}
use libhttp.Parser.{
  unpad, parse_http2_frame_settings, parse_http2_frame_ping, parse_http2_frame_goaway,
  parse_http2_frame_window_update, parse_http2_frame_headers, parse_http2_frame_rst_stream,
  parse_http2_frame_priority,
}
use libhttp.Pack.{
  pad_field, pack_http2_frame_settings, pack_http2_frame_ping, pack_http2_frame_goaway,
  pack_http2_frame_window_update, pack_http2_frame_headers, pack_http2_frame_rst_stream,
  pack_http2_frame_priority,
}
use libhttp.Codec.{Arrives, ArrivesAs, ArrivesAs-of}
use libhttp.Codec.Fields.{IsSpec}
use libhttp.Codec.Control.{
  priority-Arrives, rst_stream-Arrives, window_update-Arrives, ping-Arrives,
}
use libhttp.Codec.Blocks.{goaway-Arrives}
use libhttp.Codec.Padded.{IsHeaders, headers-Arrives}
use libhttp.Codec.Settings.{IsEntry, settings-Arrives}

-- A SETTINGS frame built from parameters that fit arrives with these parameters, and one built with
-- the ACK flag arrives without any.
pub built_settings-Arrives :
    (flags : ℕ) (settings : List SettingsEntry)
    → flags < 256
    → All IsEntry settings
    → 6 * length settings < 2 ^ 24
    → (let frame = build_http2_frame_settings flags settings in
        Arrives (pack_http2_frame_settings frame) parse_http2_frame_settings frame)
unfolding build_http2_frame_settings http2_frame_header_init
built_settings-Arrives flags settings hf all hn =
    elim (Bool-cases (has_flag flags Http2FrameFlag.ack)) [
      | inl e ↦ rw e (settings-Arrives _ (ground arith) refl tt)
      | inr e ↦ rw e (settings-Arrives _ (ground arith) (ground arith) all)
    ]

-- GOAWAY, for a last stream of 31 bits, a code of 32 bits and debug data that fits a frame.
pub built_goaway-Arrives :
    (last code : ℕ) (debug : List ℕ)
    → last < 2 ^ 31
    → code < 2 ^ 32
    → 8 + length debug < 2 ^ 24
    → (let goaway = build_http2_frame_goaway last code debug in
        Arrives (pack_http2_frame_goaway goaway) parse_http2_frame_goaway goaway)
unfolding build_http2_frame_goaway http2_frame_header_init
built_goaway-Arrives last code debug hl hc hd =
    goaway-Arrives _ (ground arith) (ground arith) hl hc refl

-- Every control frame that the library builds arrives as it was built: PING and its acknowledgement
-- for eight bytes, WINDOW_UPDATE for a 31-bit increment, RST_STREAM for a 32-bit code, GOAWAY for a
-- 31-bit last stream, a 32-bit code and debug data that fits a frame, PRIORITY for a specification
-- that fits and flags of a byte, and SETTINGS, for flags of a byte, with parameters that fit and fit a
-- frame, of which one with the ACK flag carries none; on every stream below 2^31.
pub built_control-Arrives :
    (stream_id inc code last flags : ℕ) (opaque debug : List ℕ) (is_ack : Bool)
    (spec : PrioritySpec) (settings : List SettingsEntry)
    → stream_id < 2 ^ 31
    → inc < 2 ^ 31
    → code < 2 ^ 32
    → last < 2 ^ 31
    → length opaque ≡ 8
    → 8 + length debug < 2 ^ 24
    → flags < 256
    → IsSpec spec
    → All IsEntry settings
    → 6 * length settings < 2 ^ 24
    → (let ping = build_http2_frame_ping opaque is_ack in
        Arrives (pack_http2_frame_ping ping) parse_http2_frame_ping ping)
      × (let update = build_http2_frame_window_update stream_id inc in
          Arrives (pack_http2_frame_window_update update) parse_http2_frame_window_update update)
      × (let reset = build_http2_frame_rst_stream stream_id 0 code in
          Arrives (pack_http2_frame_rst_stream reset) parse_http2_frame_rst_stream reset)
      × (let goaway = build_http2_frame_goaway last code debug in
          Arrives (pack_http2_frame_goaway goaway) parse_http2_frame_goaway goaway)
      × (let priority = build_http2_frame_priority stream_id flags spec in
          Arrives (pack_http2_frame_priority priority) parse_http2_frame_priority priority)
      × (let params = build_http2_frame_settings flags settings in
          Arrives (pack_http2_frame_settings params) parse_http2_frame_settings params)
unfolding build_http2_frame_ping build_http2_frame_window_update build_http2_frame_rst_stream
    build_http2_frame_priority http2_frame_header_init
built_control-Arrives stream_id inc code last flags opaque debug is_ack spec settings hs hi hc hl ho
      hd hf hp all hn =
    (
      ping-Arrives _ (ground arith) refl ho,
      window_update-Arrives _ (ground arith) refl hi refl,
      rst_stream-Arrives _ (ground arith) refl hc,
      built_goaway-Arrives last code debug hl hc hd,
      priority-Arrives _ (ground arith) refl hp,
      built_settings-Arrives flags settings hf all hn,
    )

-- A specification, if one is given, fits.
abbrev pub IsSpecOption : Option PrioritySpec → Type 0
IsSpecOption none = Unit {0}
IsSpecOption (some spec) = IsSpec spec

build_http2_frame_headers-IsHeaders :
    (stream_id flags : ℕ) (block : List ℕ) (spec : Option PrioritySpec)
    → stream_id < 2 ^ 31
    → flags < 256
    → has_flag flags Http2FrameFlag.padded ≡ false
    → IsSpecOption spec
    → 5 ≤ length block
    → length block + 5 < 2 ^ 24
    → IsHeaders (build_http2_frame_headers stream_id flags block spec)
unfolding build_http2_frame_headers http2_frame_header_init
build_http2_frame_headers-IsHeaders stream_id flags block none hs hf hp h5 hb hl =
    let cleared = clear_priority flags hf in
    let whole : clear_flag flags Http2FrameFlag.priority % 256
        ≡ clear_flag flags Http2FrameFlag.priority =
      ground (arith, cleared) in
    rw whole (ground (arith, cleared))
build_http2_frame_headers-IsHeaders stream_id flags block (some spec) hs hf hp h5 hb hl =
    let whole : flags % 256 ≡ flags = omega arith in rw whole (ground arith)

-- A HEADERS frame built from a block of five bytes at least that leaves five more within 2^24 - 1, with
-- flags of a byte among which PADDED is not, on a stream below 2^31, with a specification that fits or
-- without one, arrives as it was built.
pub built_headers-Arrives :
    (stream_id flags : ℕ) (block : List ℕ) (spec : Option PrioritySpec)
    → stream_id < 2 ^ 31
    → flags < 256
    → has_flag flags Http2FrameFlag.padded ≡ false
    → IsSpecOption spec
    → 5 ≤ length block
    → length block + 5 < 2 ^ 24
    → (let frame = build_http2_frame_headers stream_id flags block spec in
        Arrives (pack_http2_frame_headers frame) parse_http2_frame_headers frame)
built_headers-Arrives stream_id flags block spec hs hf hp h5 hb hl =
    headers-Arrives _
      (build_http2_frame_headers-IsHeaders stream_id flags block spec hs hf hp h5 hb hl)

-- A HEADERS frame built from a block of less than five bytes, with no specification and no padding,
-- is sent, and refused with FRAME_SIZE_ERROR at the other end. So is every response whose block is
-- the one byte of `:status: 200`.
pub short_headers-frame_size_error :
    (stream_id flags : ℕ) (block : List ℕ)
    → stream_id < 2 ^ 31
    → flags < 256
    → has_flag flags Http2FrameFlag.padded ≡ false
    → length block < 5
    → ArrivesAs
        (pack_http2_frame_headers (build_http2_frame_headers stream_id flags block none))
        parse_http2_frame_headers
        (err (error_code Http2ErrorCode.frame_size_error))
unfolding build_http2_frame_headers http2_frame_header_init pack_http2_frame_headers pad_field
    parse_http2_frame_headers unpad
short_headers-frame_size_error stream_id flags block hs hf hp hb =
    let cleared = clear_priority flags hf in
    let whole : clear_flag flags Http2FrameFlag.priority % 256
        ≡ clear_flag flags Http2FrameFlag.priority =
      ground (arith, cleared) in
    rw (whole, cleared.1, cleared.2, hp)
      (ArrivesAs-of parse_http2_frame_headers _ _ _ _ (ground (arith, cleared))
        (rw (append-nil block) (omega arith)) (λ rest. ground (arith, cleared)))
