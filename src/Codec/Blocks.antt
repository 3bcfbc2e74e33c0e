-- ===== src/Codec/Blocks.antt =====
-- The frames that carry bytes of any number and no padding: GOAWAY and CONTINUATION.
use libhttp.Prelude.{◌+◌, ◌-◌, ◌^◌, ◌<◌, ◌≡◌, sym, ◌++◌, length, append_assoc, length-append, arith}
use libhttp.Wire.{put_uint32_in_be_stream}
use libhttp.Wire.RoundTrip.{get_uint32-put_uint32}
use libhttp.Frame.{GoawayFrame, ContinuationFrame}
use libhttp.Parser.{parse_http2_frame_goaway, parse_http2_frame_continuation}
use libhttp.Pack.{pack_http2_frame_goaway, pack_http2_frame_continuation}
use libhttp.Codec.{IsHdr, Arrives, Arrives-of, view-append}
use libhttp.Codec.Fields.{
  length-put_uint32, drop-put_uint32, read-put_uint32, view-put_uint32, masked, top_bit_clear,
}

-- A CONTINUATION frame whose length is that of its block arrives as it was sent.
pub continuation-Arrives :
    (f : ContinuationFrame)
    → IsHdr f.hdr
    → f.hdr.length ≡ length f.header_block_fragment
    → Arrives (pack_http2_frame_continuation f) parse_http2_frame_continuation f
unfolding pack_http2_frame_continuation parse_http2_frame_continuation
continuation-Arrives f h e =
    Arrives-of parse_http2_frame_continuation f.hdr.length f.hdr f.header_block_fragment f h (sym e)
      (λ rest. ground (arith, view-append f.header_block_fragment rest f.hdr.length e))

-- A GOAWAY frame arrives as it was sent, if its length is 8 and that of its debug data, its last
-- stream fits 31 bits and its error code 32.
pub goaway-Arrives :
    (f : GoawayFrame)
    → IsHdr f.hdr
    → f.hdr.length ≡ 8 + length f.debug_data
    → f.last_stream_id < 2 ^ 31
    → f.error_code < 2 ^ 32
    → f.reserved ≡ 0
    → Arrives (pack_http2_frame_goaway f) parse_http2_frame_goaway f
unfolding pack_http2_frame_goaway parse_http2_frame_goaway
goaway-Arrives f h e hl he hr =
    let tail = put_uint32_in_be_stream f.error_code ++ f.debug_data in
    Arrives-of parse_http2_frame_goaway f.hdr.length f.hdr
      (put_uint32_in_be_stream f.last_stream_id ++ tail) f h
      (omega (
        arith,
        length-append (put_uint32_in_be_stream f.last_stream_id) tail,
        length-append (put_uint32_in_be_stream f.error_code) f.debug_data,
        length-put_uint32 f.last_stream_id,
        length-put_uint32 f.error_code,
      ))
      (λ rest.
        let behind = put_uint32_in_be_stream f.error_code ++ (f.debug_data ++ rest) in
        rw
          (
            append_assoc (put_uint32_in_be_stream f.last_stream_id) tail rest,
            append_assoc (put_uint32_in_be_stream f.error_code) f.debug_data rest,
          )
          (ground (
            arith,
            read-put_uint32 f.last_stream_id behind,
            get_uint32-put_uint32 f.last_stream_id behind,
            masked f.last_stream_id hl,
            top_bit_clear f.last_stream_id hl,
            drop-put_uint32 f.last_stream_id behind,
            get_uint32-put_uint32 f.error_code (f.debug_data ++ rest),
            view-put_uint32 f.last_stream_id 8 4 (f.hdr.length - 8) behind,
            view-put_uint32 f.error_code 4 0 (f.hdr.length - 8) (f.debug_data ++ rest),
            view-append f.debug_data rest (f.hdr.length - 8),
          )))
