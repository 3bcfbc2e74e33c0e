-- ===== src/Codec/Control.antt =====
-- The frames of a fixed size: PRIORITY, RST_STREAM, PING and WINDOW_UPDATE.
use libhttp.Prelude.{
  ◌-◌, ◌%◌, ◌^◌, ◌<◌, ◌≡◌, sym, ◌∙◌, [], ◌∷◌, ◌++◌, length, append_assoc, length-append, take_all,
  arith, if◌then◌else◌, ◌==◌,
}
use libhttp.Wire.{put_uint32_in_be_stream}
use libhttp.Wire.RoundTrip.{get_uint32-put_uint32}
use libhttp.Frame.{PriorityFrame, RstStreamFrame, PingFrame, WindowUpdateFrame}
use libhttp.Parser.{
  parse_http2_frame_priority, parse_http2_frame_rst_stream, parse_http2_frame_ping,
  parse_http2_frame_window_update,
}
use libhttp.Pack.{
  dependency, pack_http2_frame_priority, pack_http2_frame_rst_stream, pack_http2_frame_ping,
  pack_http2_frame_window_update,
}
use libhttp.Codec.{IsHdr, Arrives, Arrives-of, view-append}
use libhttp.Codec.Fields.{
  IsSpec, length-put_uint32, read-put_uint32, masked, top_bit_clear, parse_priority_spec-dependency,
}

-- An RST_STREAM frame of length 4 with a 32-bit error code arrives as it was sent.
pub rst_stream-Arrives :
    (f : RstStreamFrame)
    → IsHdr f.hdr
    → f.hdr.length ≡ 4
    → f.error_code < 2 ^ 32
    → Arrives (pack_http2_frame_rst_stream f) parse_http2_frame_rst_stream f
unfolding pack_http2_frame_rst_stream parse_http2_frame_rst_stream
rst_stream-Arrives f h e he =
    Arrives-of parse_http2_frame_rst_stream 4 f.hdr (put_uint32_in_be_stream f.error_code) f h
      (length-put_uint32 f.error_code)
      (λ rest. ground (arith, get_uint32-put_uint32 f.error_code rest))

-- A WINDOW_UPDATE frame of length 4 with a 31-bit increment arrives as it was sent.
pub window_update-Arrives :
    (f : WindowUpdateFrame)
    → IsHdr f.hdr
    → f.hdr.length ≡ 4
    → f.window_size_inc < 2 ^ 31
    → f.reserved ≡ 0
    → Arrives (pack_http2_frame_window_update f) parse_http2_frame_window_update f
unfolding pack_http2_frame_window_update parse_http2_frame_window_update
window_update-Arrives f h e hw hr =
    Arrives-of parse_http2_frame_window_update 4 f.hdr (put_uint32_in_be_stream f.window_size_inc) f
      h (length-put_uint32 f.window_size_inc)
      (λ rest. ground (
        arith,
        get_uint32-put_uint32 f.window_size_inc rest,
        read-put_uint32 f.window_size_inc rest,
        masked f.window_size_inc hw,
        top_bit_clear f.window_size_inc hw,
      ))

-- A PING frame of length 8 with eight bytes of opaque data arrives as it was sent.
pub ping-Arrives :
    (f : PingFrame)
    → IsHdr f.hdr
    → f.hdr.length ≡ 8
    → length f.opaque_data ≡ 8
    → Arrives (pack_http2_frame_ping f) parse_http2_frame_ping f
unfolding pack_http2_frame_ping parse_http2_frame_ping
ping-Arrives f h e ho = rw (take_all f.opaque_data {n = 8} (omega arith)) (
    Arrives-of parse_http2_frame_ping 8 f.hdr f.opaque_data f h ho
      (λ rest. ground (arith, view-append f.opaque_data rest 8 (sym ho))))

-- A PRIORITY frame of length 5 whose specification fits (a weight of 1 to 256, a 31-bit dependency)
-- arrives as it was sent.
pub priority-Arrives :
    (f : PriorityFrame)
    → IsHdr f.hdr
    → f.hdr.length ≡ 5
    → IsSpec f.pspec
    → Arrives (pack_http2_frame_priority f) parse_http2_frame_priority f
unfolding pack_http2_frame_priority parse_http2_frame_priority
priority-Arrives f h e s =
    let w = if f.pspec.weight == 0 then 0 else (f.pspec.weight - 1) % 256 in
    Arrives-of parse_http2_frame_priority 5 f.hdr
      (put_uint32_in_be_stream (dependency f.pspec) ++ (w ∷ [])) f h
      (length-append (put_uint32_in_be_stream (dependency f.pspec)) (w ∷ [])
        ∙ omega (arith, length-put_uint32 (dependency f.pspec)))
      (λ rest.
        rw (append_assoc (put_uint32_in_be_stream (dependency f.pspec)) (w ∷ []) rest)
          (ground (arith, parse_priority_spec-dependency f.pspec w rest)))
