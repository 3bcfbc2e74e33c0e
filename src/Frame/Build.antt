-- ===== src/Frame/Build.antt =====
-- The frame builders of src/http2/frame.cc. `int` flags are taken as the number that they hold.
use libhttp.Prelude.{ℕ, Bool, ◌+◌, ◌*◌, ◌%◌, List, [], Option, none, some, length, if◌then◌else◌}
use libhttp.Types.{Http2FrameType, frame_type, Http2FrameFlag, flag_bits, has_flag, clear_flag}
use libhttp.Frame.{
  DataFrame, HeadersFrame, PriorityFrame, RstStreamFrame, SettingsEntry, SettingsFrame,
  PushPromiseFrame, PingFrame, GoawayFrame, WindowUpdateFrame, PrioritySpec,
  http2_frame_header_init,
}

unfoldable pub build_http2_frame_settings : ℕ → List SettingsEntry → SettingsFrame
build_http2_frame_settings flags settings =
    if has_flag flags Http2FrameFlag.ack
    then record {
      hdr = http2_frame_header_init 0 (frame_type Http2FrameType.settings_frame) (flags % 256) 0;
      settings = [];
    }
    else record {
      hdr =
          http2_frame_header_init (6 * length settings) (frame_type Http2FrameType.settings_frame)
            (flags % 256) 0;
      settings = settings;
    }

unfoldable pub build_http2_frame_ping : List ℕ → Bool → PingFrame
build_http2_frame_ping opaque is_ack = record {
  hdr =
      http2_frame_header_init 8 (frame_type Http2FrameType.ping_frame)
        (if is_ack then flag_bits Http2FrameFlag.ack else 0) 0;
  opaque_data = opaque;
}

unfoldable pub build_http2_frame_goaway : ℕ → ℕ → List ℕ → GoawayFrame
build_http2_frame_goaway last_stream_id error_code debug = record {
  hdr = http2_frame_header_init (8 + length debug) (frame_type Http2FrameType.goaway_frame) 0 0;
  last_stream_id = last_stream_id;
  error_code = error_code;
  debug_data = debug;
  reserved = 0;
}

unfoldable pub build_http2_frame_window_update : ℕ → ℕ → WindowUpdateFrame
build_http2_frame_window_update stream_id window_size_inc = record {
  hdr = http2_frame_header_init 4 (frame_type Http2FrameType.window_update_frame) 0 stream_id;
  window_size_inc = window_size_inc;
  reserved = 0;
}

unfoldable pub build_http2_frame_data : ℕ → ℕ → List ℕ → DataFrame
build_http2_frame_data stream_id flags body = record {
  hdr =
      http2_frame_header_init (length body) (frame_type Http2FrameType.data_frame) (flags % 256)
        stream_id;
  pad_len = 0;
  body = body;
}

abbrev pub no_priority : PrioritySpec
no_priority = record { depend_stream_id = 0; weight = 0; exclusive = 0 }

-- `flags &= ~Priority` when no specification is given; `flags` is a byte.
headers_flags : ℕ → Option PrioritySpec → ℕ
headers_flags flags none = clear_flag flags Http2FrameFlag.priority
headers_flags flags (some spec) = flags

headers_spec : Option PrioritySpec → PrioritySpec
headers_spec none = no_priority
headers_spec (some spec) = spec

unfoldable pub build_http2_frame_headers : ℕ → ℕ → List ℕ → Option PrioritySpec → HeadersFrame
unfolding headers_flags headers_spec
build_http2_frame_headers stream_id flags header_block spec =
    let f = headers_flags flags spec in
    let prioritised = has_flag f Http2FrameFlag.priority in
    record {
      hdr =
          http2_frame_header_init (length header_block + (if prioritised then 5 else 0))
            (frame_type Http2FrameType.headers_frame) (f % 256) stream_id;
      pad_len = 0;
      pspec = if prioritised then headers_spec spec else no_priority;
      header_block_fragment = header_block;
    }

unfoldable pub build_http2_frame_push_promise : ℕ → ℕ → ℕ → List ℕ → PushPromiseFrame
build_http2_frame_push_promise associated_stream_id promised_stream_id flags header_block = record {
  hdr =
      http2_frame_header_init (4 + length header_block)
        (frame_type Http2FrameType.push_promise_frame) (flags % 256) associated_stream_id;
  pad_len = 0;
  promised_stream_id = promised_stream_id;
  header_block_fragment = header_block;
  reserved = 0;
}

unfoldable pub build_http2_frame_rst_stream : ℕ → ℕ → ℕ → RstStreamFrame
build_http2_frame_rst_stream stream_id flags error_code = record {
  hdr =
      http2_frame_header_init 4 (frame_type Http2FrameType.rst_stream_frame) (flags % 256)
        stream_id;
  error_code = error_code;
}

unfoldable pub build_http2_frame_priority : ℕ → ℕ → PrioritySpec → PriorityFrame
build_http2_frame_priority stream_id flags spec = record {
  hdr =
      http2_frame_header_init 5 (frame_type Http2FrameType.priority_frame) (flags % 256) stream_id;
  pspec = spec;
}
