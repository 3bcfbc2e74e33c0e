-- ===== src/Parser.antt =====
-- src/http2/parser.cc: the payload of each frame type. `input` is what the buffer holds from the
-- payload on; a read behind its end is `out_of_bounds`.
use libhttp.Prelude.{
  ℕ, zero, suc, ◌+◌, ◌-◌, ◌/◌, ◌%◌, ◌^◌, Bool, not, List, [], ◌∷◌, Result, ok, err, ◌>>=◌, ◌>>◌,
  read, view, drop, if◌then◌else◌, ltb, ◌==◌, bit_and,
}
use libhttp.Types.{Http2ErrorCode, error_code, Http2FrameFlag, has_flag}
use libhttp.Wire.{get_uint16_from_be_stream, get_uint32_from_be_stream}
use libhttp.Frame.{
  FrameHdr, DataFrame, PrioritySpec, HeadersFrame, PriorityFrame, RstStreamFrame, SettingsEntry,
  SettingsFrame, PushPromiseFrame, PingFrame, GoawayFrame, WindowUpdateFrame, ContinuationFrame,
  stream_id_mask,
}

-- `if (test) return code;`
abbrev pub fail_if : Bool → Http2ErrorCode → Result (Unit {0})
fail_if test e = if test then err (error_code e) else ok tt

-- `(p[0] & 0x80) != 0`, as the number 1 or 0.
abbrev pub top_bit : ℕ → ℕ
top_bit b = if bit_and b 0x80 == 0 then 0 else 1

-- What is left of a payload once its padding is known.
pub record Unpadded : Type 0 where
  pub pad_length : ℕ
  pub offset : ℕ
  pub size : ℕ

-- The opening lines that DATA, HEADERS and PUSH_PROMISE share. `hdr->length` is a `uint32_t`, so that
-- the size wraps around; below 2^31 it is the same as an `int` (DATA) and as a `size_t`.
unfoldable pub unpad : FrameHdr → List ℕ → Result Unpadded
unpad hdr input =
    if has_flag hdr.flags Http2FrameFlag.padded
    then (do
      pad_length ← read input 0
      fail_if (ltb hdr.length (pad_length + 1)) Http2ErrorCode.frame_size_error
      ok (record {
        pad_length = pad_length;
        offset = 1;
        size = (hdr.length + 2 ^ 32 - (pad_length + 1)) % 2 ^ 32;
      }))
    else ok (record { pad_length = 0; offset = 0; size = hdr.length })

unfoldable pub parse_http2_frame_data : FrameHdr → List ℕ → Result DataFrame
parse_http2_frame_data hdr input = do
  p ← unpad hdr input
  body ← view input p.offset p.size
  ok (record { hdr = hdr; pad_len = p.pad_length; body = body })

-- The specification that a prioritised HEADERS payload and a PRIORITY payload begin with.
unfoldable pub parse_priority_spec : List ℕ → Result PrioritySpec
parse_priority_spec payload = do
  w ← get_uint32_from_be_stream payload
  p0 ← read payload 0
  p4 ← read payload 4
  ok (record {
    depend_stream_id = bit_and w stream_id_mask;
    weight = p4 + 1;
    exclusive = top_bit p0;
  })

unfoldable pub parse_http2_frame_headers : FrameHdr → List ℕ → Result HeadersFrame
parse_http2_frame_headers hdr input = do
  p ← unpad hdr input
  fail_if (ltb p.size 5) Http2ErrorCode.frame_size_error
  if has_flag hdr.flags Http2FrameFlag.priority
      then (do
        spec ← parse_priority_spec (drop p.offset input)
        block ← view input (p.offset + 5) (p.size - 5)
        ok (record {
          hdr = hdr;
          pad_len = p.pad_length;
          pspec = spec;
          header_block_fragment = block;
        }))
      else (do
        block ← view input p.offset p.size
        ok (record {
          hdr = hdr;
          pad_len = p.pad_length;
          pspec = record { depend_stream_id = 0; weight = 0; exclusive = 0 };
          header_block_fragment = block;
        }))

unfoldable pub parse_http2_frame_priority : FrameHdr → List ℕ → Result PriorityFrame
parse_http2_frame_priority hdr input = do
  fail_if (not (hdr.length == 5)) Http2ErrorCode.frame_size_error
  spec ← parse_priority_spec input
  ok (record { hdr = hdr; pspec = spec })

unfoldable pub parse_http2_frame_rst_stream : FrameHdr → List ℕ → Result RstStreamFrame
parse_http2_frame_rst_stream hdr input = do
  fail_if (not (hdr.length == 4)) Http2ErrorCode.frame_size_error
  code ← get_uint32_from_be_stream input
  ok (record { hdr = hdr; error_code = code })

-- The loop over `niv` entries.
unfoldable pub parse_settings_entries : ℕ → List ℕ → Result (List SettingsEntry)
parse_settings_entries zero payload = ok []
parse_settings_entries (suc niv) payload = do
  id ← get_uint16_from_be_stream payload
  value ← get_uint32_from_be_stream (drop 2 payload)
  rest ← parse_settings_entries niv (drop 6 payload)
  ok (record { id = id; value = value } ∷ rest)

unfoldable pub parse_http2_frame_settings : FrameHdr → List ℕ → Result SettingsFrame
parse_http2_frame_settings hdr input = do
  fail_if (not (hdr.length % 6 == 0)) Http2ErrorCode.frame_size_error
  settings ← parse_settings_entries (hdr.length / 6) input
  ok (record { hdr = hdr; settings = settings })

unfoldable pub parse_http2_frame_push_promise : FrameHdr → List ℕ → Result PushPromiseFrame
parse_http2_frame_push_promise hdr input = do
  p ← unpad hdr input
  fail_if (ltb p.size 4) Http2ErrorCode.frame_size_error
  w ← get_uint32_from_be_stream (drop p.offset input)
  p0 ← read input p.offset
  block ← view input (p.offset + 4) (p.size - 4)
  ok (record {
    hdr = hdr;
    pad_len = p.pad_length;
    promised_stream_id = bit_and w stream_id_mask;
    header_block_fragment = block;
    reserved = top_bit p0;
  })

unfoldable pub parse_http2_frame_ping : FrameHdr → List ℕ → Result PingFrame
parse_http2_frame_ping hdr input = do
  fail_if (not (hdr.length == 8)) Http2ErrorCode.frame_size_error
  opaque ← view input 0 8
  ok (record { hdr = hdr; opaque_data = opaque })

unfoldable pub parse_http2_frame_goaway : FrameHdr → List ℕ → Result GoawayFrame
parse_http2_frame_goaway hdr input = do
  fail_if (ltb hdr.length 8) Http2ErrorCode.frame_size_error
  p0 ← read input 0
  w ← get_uint32_from_be_stream input
  code ← get_uint32_from_be_stream (drop 4 input)
  debug ← view input 8 (hdr.length - 8)
  ok (record {
    hdr = hdr;
    last_stream_id = bit_and w stream_id_mask;
    error_code = code;
    debug_data = debug;
    reserved = top_bit p0;
  })

unfoldable pub parse_http2_frame_window_update : FrameHdr → List ℕ → Result WindowUpdateFrame
parse_http2_frame_window_update hdr input = do
  fail_if (not (hdr.length == 4)) Http2ErrorCode.frame_size_error
  p0 ← read input 0
  w ← get_uint32_from_be_stream input
  ok (record { hdr = hdr; window_size_inc = bit_and w stream_id_mask; reserved = top_bit p0 })

unfoldable pub parse_http2_frame_continuation : FrameHdr → List ℕ → Result ContinuationFrame
parse_http2_frame_continuation hdr input = do
  block ← view input 0 hdr.length
  ok (record { hdr = hdr; header_block_fragment = block })
