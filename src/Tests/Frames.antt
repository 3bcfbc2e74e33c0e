-- ===== src/Tests/Frames.antt =====
-- Frames of src/http2/frame.cc, pack.cc and parser.cc at concrete inputs.
use libhttp.Prelude.{
  ℕ, ◌^◌, ◌<◌, ◌≡◌, refl, true, false, List, [], ◌∷◌, ◌++◌, some, none, ok, err, out_of_bounds,
  arith,
}
use libhttp.Types.{Http2FrameFlag, has_flag, Http2ErrorCode, error_code}
use libhttp.Wire.{change_byte_order, get_uint32_from_be_stream, put_uint32_in_be_stream}
use libhttp.Wire.RoundTrip.{change_byte_order-change_byte_order, get_uint32-put_uint32}
use libhttp.Frame.{
  FrameHdr, DataFrame, PrioritySpec, HeadersFrame, PriorityFrame, RstStreamFrame, SettingsFrame,
  PushPromiseFrame, PingFrame, GoawayFrame, WindowUpdateFrame, ContinuationFrame,
  http2_frame_header_pack, http2_frame_header_unpack,
}
use libhttp.Frame.Build.{
  build_http2_frame_ping, build_http2_frame_window_update, build_http2_frame_rst_stream,
  build_http2_frame_priority, build_http2_frame_goaway, build_http2_frame_settings,
  build_http2_frame_headers,
}
use libhttp.Frame.Header.{unpack-pack, pack-unpack}
use libhttp.Parser.{
  parse_http2_frame_data, parse_http2_frame_headers, parse_http2_frame_priority,
  parse_http2_frame_rst_stream, parse_http2_frame_settings, parse_http2_frame_push_promise,
  parse_http2_frame_ping, parse_http2_frame_goaway, parse_http2_frame_window_update,
  parse_http2_frame_continuation,
}
use libhttp.Pack.{
  pack_http2_frame_data, pack_http2_frame_headers, pack_http2_frame_priority,
  pack_http2_frame_rst_stream, pack_http2_frame_settings, pack_http2_frame_push_promise,
  pack_http2_frame_ping, pack_http2_frame_goaway, pack_http2_frame_window_update,
  pack_http2_frame_continuation,
}
use libhttp.Codec.{IsHdr, Arrives, ArrivesAs}
use libhttp.Codec.Fields.{IsSpec}
use libhttp.Codec.Control.{
  rst_stream-Arrives, window_update-Arrives, ping-Arrives, priority-Arrives,
}
use libhttp.Codec.Blocks.{continuation-Arrives, goaway-Arrives}
use libhttp.Codec.Padded.{IsHeaders, headers-Arrives, IsPushPromise, push_promise-Arrives}
use libhttp.Codec.Settings.{settings-Arrives}
use libhttp.Codec.Chunk.{is_empty}
use libhttp.Codec.Data.{Received, Carries, pack_data-Carries}
use libhttp.Codec.Safety.{InBounds, IsComplete, parsers-InBounds, padded_empty-out_of_bounds}
use libhttp.Codec.Built.{
  built_control-Arrives, built_settings-Arrives, built_headers-Arrives,
  short_headers-frame_size_error,
}

abbrev hdr_of : ℕ → ℕ → ℕ → ℕ → FrameHdr
hdr_of len t f s = record { length = len; type = t; flags = f; reserved = 0; stream_id = s }

hdr_of-IsHdr :
    (len t f s : ℕ) → len < 2 ^ 24 → t < 256 → f < 256 → s < 2 ^ 31 → IsHdr (hdr_of len t f s)
hdr_of-IsHdr len t f s a b c d = record {
  length_fits = a;
  type_fits = b;
  flags_fit = c;
  unreserved = refl;
  stream_id_fits = d;
}

abbrev body_frame : DataFrame
body_frame = record { hdr = hdr_of 5 0 1 3; pad_len = 0; body = 104 ∷ 101 ∷ 108 ∷ 108 ∷ 111 ∷ [] }

pack_data-Carries_example :
    (cs : List (List ℕ)) × (fs : List DataFrame) × (pack_http2_frame_data body_frame 2 ≡ some cs)
    × Received cs fs
    × Carries 3 (has_flag 1 Http2FrameFlag.end_stream) 2 (104 ∷ 101 ∷ 108 ∷ 108 ∷ 111 ∷ []) fs
    × (is_empty fs ≡ false)
pack_data-Carries_example =
    pack_data-Carries body_frame 2 (omega arith) (omega arith) refl (omega arith) (omega arith)
      (omega arith) (omega arith)

abbrev padded_headers : HeadersFrame
padded_headers = record {
  hdr = hdr_of 14 1 0x2c 1;
  pad_len = 2;
  pspec = record { depend_stream_id = 5; weight = 16; exclusive = 1 };
  header_block_fragment = 0x82 ∷ 0x86 ∷ 0x84 ∷ 0x41 ∷ 0x8a ∷ 0x08 ∷ [];
}

abbrev weight_16 : PrioritySpec
weight_16 = record { depend_stream_id = 5; weight = 16; exclusive = 1 }

weight_16-IsSpec : IsSpec weight_16
weight_16-IsSpec = record {
  depend_fits = omega arith;
  weight_lower = omega arith;
  weight_upper = omega arith;
  exclusive_fits = omega arith;
}

padded_headers-IsHeaders : IsHeaders padded_headers
unfolding has_flag
padded_headers-IsHeaders = record {
  hdr_fits = hdr_of-IsHdr 14 1 0x2c 1 (omega arith) (omega arith) (omega arith) (omega arith);
  padding = λ h. ground arith;
  sized = refl;
  spec_fits = λ h. weight_16-IsSpec;
  spec_absent = λ h. ground arith;
  long_enough = omega arith;
}

headers-Arrives_example :
    Arrives (pack_http2_frame_headers padded_headers) parse_http2_frame_headers padded_headers
headers-Arrives_example = headers-Arrives padded_headers padded_headers-IsHeaders

abbrev promise_frame : PushPromiseFrame
promise_frame = record {
  hdr = hdr_of 10 5 0x0c 1;
  pad_len = 3;
  promised_stream_id = 2;
  header_block_fragment = 0x82 ∷ 0x86 ∷ [];
  reserved = 0;
}

promise_frame-IsPushPromise : IsPushPromise promise_frame
unfolding has_flag
promise_frame-IsPushPromise = record {
  hdr_fits = hdr_of-IsHdr 10 5 0x0c 1 (omega arith) (omega arith) (omega arith) (omega arith);
  padding = λ h. ground arith;
  sized = refl;
  promised_fits = omega arith;
  unreserved = refl;
}

push_promise-Arrives_example :
    Arrives
      (pack_http2_frame_push_promise promise_frame)
      parse_http2_frame_push_promise
      promise_frame
push_promise-Arrives_example = push_promise-Arrives promise_frame promise_frame-IsPushPromise

abbrev two_settings : SettingsFrame
two_settings = record {
  hdr = hdr_of 12 4 0 0;
  settings = record { id = 3; value = 100 } ∷ record { id = 4; value = 1048576 } ∷ [];
}

settings-Arrives_example :
    Arrives (pack_http2_frame_settings two_settings) parse_http2_frame_settings two_settings
settings-Arrives_example =
    settings-Arrives two_settings
      (hdr_of-IsHdr 12 4 0 0 (omega arith) (omega arith) (omega arith) (omega arith)) refl
      ((omega arith, omega arith), ((omega arith, omega arith), tt))

abbrev reset_frame : RstStreamFrame
reset_frame = record { hdr = hdr_of 4 3 0 5; error_code = 8 }

rst_stream-Arrives_example :
    Arrives (pack_http2_frame_rst_stream reset_frame) parse_http2_frame_rst_stream reset_frame
rst_stream-Arrives_example =
    rst_stream-Arrives reset_frame
      (hdr_of-IsHdr 4 3 0 5 (omega arith) (omega arith) (omega arith) (omega arith)) refl
      (omega arith)

abbrev update_frame : WindowUpdateFrame
update_frame = record { hdr = hdr_of 4 8 0 0; window_size_inc = 65535; reserved = 0 }

window_update-Arrives_example :
    Arrives
      (pack_http2_frame_window_update update_frame)
      parse_http2_frame_window_update
      update_frame
window_update-Arrives_example =
    window_update-Arrives update_frame
      (hdr_of-IsHdr 4 8 0 0 (omega arith) (omega arith) (omega arith) (omega arith)) refl
      (omega arith) refl

abbrev ping_frame : PingFrame
ping_frame = record { hdr = hdr_of 8 6 0 0; opaque_data = 1 ∷ 2 ∷ 3 ∷ 4 ∷ 5 ∷ 6 ∷ 7 ∷ 8 ∷ [] }

ping-Arrives_example : Arrives (pack_http2_frame_ping ping_frame) parse_http2_frame_ping ping_frame
ping-Arrives_example =
    ping-Arrives ping_frame
      (hdr_of-IsHdr 8 6 0 0 (omega arith) (omega arith) (omega arith) (omega arith)) refl refl

abbrev priority_frame : PriorityFrame
priority_frame = record {
  hdr = hdr_of 5 2 0 7;
  pspec = record { depend_stream_id = 5; weight = 16; exclusive = 1 };
}

priority-Arrives_example :
    Arrives (pack_http2_frame_priority priority_frame) parse_http2_frame_priority priority_frame
priority-Arrives_example =
    priority-Arrives priority_frame
      (hdr_of-IsHdr 5 2 0 7 (omega arith) (omega arith) (omega arith) (omega arith)) refl
      weight_16-IsSpec

abbrev continuation_frame : ContinuationFrame
continuation_frame = record { hdr = hdr_of 3 9 4 7; header_block_fragment = 9 ∷ 8 ∷ 7 ∷ [] }

continuation-Arrives_test :
    Arrives
      (pack_http2_frame_continuation continuation_frame)
      parse_http2_frame_continuation
      continuation_frame
continuation-Arrives_test =
    continuation-Arrives continuation_frame
      (hdr_of-IsHdr 3 9 4 7 (omega arith) (omega arith) (omega arith) (omega arith)) refl

abbrev goaway_frame : GoawayFrame
goaway_frame = record {
  hdr = hdr_of 10 7 0 0;
  last_stream_id = 41;
  error_code = 2;
  debug_data = 33 ∷ 34 ∷ [];
  reserved = 0;
}

goaway-Arrives_example :
    Arrives (pack_http2_frame_goaway goaway_frame) parse_http2_frame_goaway goaway_frame
goaway-Arrives_example =
    goaway-Arrives goaway_frame
      (hdr_of-IsHdr 10 7 0 0 (omega arith) (omega arith) (omega arith) (omega arith)) refl
      (omega arith) (omega arith) refl

built_control-Arrives_example :
    (let ping = build_http2_frame_ping ping_frame.opaque_data true in
      Arrives (pack_http2_frame_ping ping) parse_http2_frame_ping ping)
    × (let update = build_http2_frame_window_update 3 100 in
        Arrives (pack_http2_frame_window_update update) parse_http2_frame_window_update update)
    × (let reset = build_http2_frame_rst_stream 3 0 7 in
        Arrives (pack_http2_frame_rst_stream reset) parse_http2_frame_rst_stream reset)
    × (let goaway = build_http2_frame_goaway 9 7 (65 ∷ 66 ∷ []) in
        Arrives (pack_http2_frame_goaway goaway) parse_http2_frame_goaway goaway)
    × (let priority = build_http2_frame_priority 3 0 weight_16 in
        Arrives (pack_http2_frame_priority priority) parse_http2_frame_priority priority)
    × (let params = build_http2_frame_settings 0 two_settings.settings in
        Arrives (pack_http2_frame_settings params) parse_http2_frame_settings params)
built_control-Arrives_example =
    built_control-Arrives 3 100 7 9 0 ping_frame.opaque_data (65 ∷ 66 ∷ []) true weight_16
      two_settings.settings (omega arith) (omega arith) (omega arith) (omega arith) refl
      (omega arith) (omega arith) weight_16-IsSpec
      ((omega arith, omega arith), ((omega arith, omega arith), tt)) (omega arith)

built_settings_arrive :
    (let frame = build_http2_frame_settings 0 two_settings.settings in
      Arrives (pack_http2_frame_settings frame) parse_http2_frame_settings frame)
built_settings_arrive =
    built_settings-Arrives 0 two_settings.settings (omega arith)
      ((omega arith, omega arith), ((omega arith, omega arith), tt)) (omega arith)

not_padded : has_flag 0x24 Http2FrameFlag.padded ≡ false
unfolding has_flag
not_padded = refl

built_headers-Arrives_example :
    (let frame =
        build_http2_frame_headers 1 0x24 (1 ∷ 2 ∷ 3 ∷ 4 ∷ 5 ∷ []) (some priority_frame.pspec) in
      Arrives (pack_http2_frame_headers frame) parse_http2_frame_headers frame)
built_headers-Arrives_example =
    built_headers-Arrives 1 0x24 (1 ∷ 2 ∷ 3 ∷ 4 ∷ 5 ∷ []) (some priority_frame.pspec) (omega arith)
      (omega arith) not_padded weight_16-IsSpec (omega arith) (omega arith)

short_headers-frame_size_error_example :
    ArrivesAs
      (pack_http2_frame_headers (build_http2_frame_headers 1 0x24 (0x88 ∷ []) none))
      parse_http2_frame_headers
      (err (error_code Http2ErrorCode.frame_size_error))
short_headers-frame_size_error_example =
    short_headers-frame_size_error 1 0x24 (0x88 ∷ []) (omega arith) (omega arith) not_padded
      (omega arith)

abbrev padded_data : FrameHdr
padded_data = hdr_of 4 0 8 1

padded_data-IsComplete : IsComplete padded_data (2 ∷ 7 ∷ 0 ∷ 0 ∷ [])
padded_data-IsComplete = record { whole = omega arith; pad_present = λ h. omega arith }

parsers-InBounds_example :
    (let hdr = padded_data in
      let input : List ℕ = 2 ∷ 7 ∷ 0 ∷ 0 ∷ [] in
      InBounds (parse_http2_frame_data hdr input)
      × InBounds (parse_http2_frame_headers hdr input)
      × InBounds (parse_http2_frame_priority hdr input)
      × InBounds (parse_http2_frame_rst_stream hdr input)
      × InBounds (parse_http2_frame_settings hdr input)
      × InBounds (parse_http2_frame_push_promise hdr input)
      × InBounds (parse_http2_frame_ping hdr input)
      × InBounds (parse_http2_frame_goaway hdr input)
      × InBounds (parse_http2_frame_window_update hdr input)
      × InBounds (parse_http2_frame_continuation hdr input))
parsers-InBounds_example = parsers-InBounds padded_data (2 ∷ 7 ∷ 0 ∷ 0 ∷ []) padded_data-IsComplete

padded_flag : has_flag 8 Http2FrameFlag.padded ≡ true
unfolding has_flag
padded_flag = refl

padded_empty-out_of_bounds_example :
    (parse_http2_frame_data (hdr_of 0 0 8 1) [] ≡ out_of_bounds)
    × (parse_http2_frame_headers (hdr_of 0 0 8 1) [] ≡ out_of_bounds)
    × (parse_http2_frame_push_promise (hdr_of 0 0 8 1) [] ≡ out_of_bounds)
padded_empty-out_of_bounds_example = padded_empty-out_of_bounds (hdr_of 0 0 8 1) refl padded_flag

unpack-pack_example :
    http2_frame_header_unpack (http2_frame_header_pack (hdr_of 16777217 1 4 2147483653) ++ (9 ∷ []))
    ≡ ok (hdr_of 1 1 4 5)
unpack-pack_example =
    unpack-pack (hdr_of 16777217 1 4 2147483653) (9 ∷ []) (omega arith) (omega arith)

pack-unpack_test :
    (hd : FrameHdr) × (http2_frame_header_unpack (0 ∷ 0 ∷ 8 ∷ 6 ∷ 1 ∷ 128 ∷ 0 ∷ 0 ∷ 3 ∷ []) ≡ ok hd)
    × (http2_frame_header_pack hd ≡ 0 ∷ 0 ∷ 8 ∷ 6 ∷ 1 ∷ 0 ∷ 0 ∷ 0 ∷ 3 ∷ [])
pack-unpack_test = pack-unpack 0 0 8 6 1 128 0 0 3 [] (
  omega arith,
  (
    omega arith,
    (
      omega arith,
      (omega arith, (omega arith, (omega arith, (omega arith, (omega arith, (omega arith, tt)))))),
    ),
  ),
)

swapped_twice : change_byte_order 4 (change_byte_order 4 0x12345678) ≡ 0x12345678
swapped_twice = change_byte_order-change_byte_order 4 0x12345678 (omega arith)

get_uint32-put_uint32_test :
    get_uint32_from_be_stream (put_uint32_in_be_stream 0xdeadbeef ++ (1 ∷ [])) ≡ ok 0xdeadbeef
get_uint32-put_uint32_test = get_uint32-put_uint32 0xdeadbeef (1 ∷ []) (omega arith)
