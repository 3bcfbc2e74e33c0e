-- ===== src/Types.antt =====
-- The enumerations of include/http2/transport.h, with the numbers that they are cast to.
pub mod Flags
use libhttp.Prelude.{ℕ, Bool, not, ◌==◌, bit_and, ◌-◌}

pub data Http2ErrorCode : Type 0 where
  no_error protocol_error internal_error flow_control_error settings_timeout : Http2ErrorCode
  stream_closed frame_size_error refused_stream cancel compression_error : Http2ErrorCode
  connect_error enhance_your_calm inadequate_security http11_required : Http2ErrorCode

abbrev pub error_code : Http2ErrorCode → ℕ
error_code no_error = 0x0
error_code protocol_error = 0x1
error_code internal_error = 0x2
error_code flow_control_error = 0x3
error_code settings_timeout = 0x4
error_code stream_closed = 0x5
error_code frame_size_error = 0x6
error_code refused_stream = 0x7
error_code cancel = 0x8
error_code compression_error = 0x9
error_code connect_error = 0xa
error_code enhance_your_calm = 0xb
error_code inadequate_security = 0xc
error_code http11_required = 0xd

pub data Http2FrameType : Type 0 where
  data_frame headers_frame priority_frame rst_stream_frame settings_frame : Http2FrameType
  push_promise_frame ping_frame goaway_frame window_update_frame : Http2FrameType
  continuation_frame : Http2FrameType

abbrev pub frame_type : Http2FrameType → ℕ
frame_type data_frame = 0x0
frame_type headers_frame = 0x1
frame_type priority_frame = 0x2
frame_type rst_stream_frame = 0x3
frame_type settings_frame = 0x4
frame_type push_promise_frame = 0x5
frame_type ping_frame = 0x6
frame_type goaway_frame = 0x7
frame_type window_update_frame = 0x8
frame_type continuation_frame = 0x9

pub data Http2FrameFlag : Type 0 where
  end_stream ack end_headers padded priority : Http2FrameFlag

abbrev pub flag_bits : Http2FrameFlag → ℕ
flag_bits end_stream = 0x1
flag_bits ack = 0x1
flag_bits end_headers = 0x4
flag_bits padded = 0x8
flag_bits priority = 0x20

-- `flags & static_cast<uint8_t>(f)` as a condition.
unfoldable pub has_flag : ℕ → Http2FrameFlag → Bool
has_flag flags f = not (bit_and flags (flag_bits f) == 0)

-- `flags &= ~static_cast<uint8_t>(f)` on a byte.
unfoldable pub clear_flag : ℕ → Http2FrameFlag → ℕ
clear_flag flags f = bit_and flags (255 - flag_bits f)
