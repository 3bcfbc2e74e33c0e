-- ===== src/Frame.antt =====
-- src/http2/frame.h and the header functions of frame.cc. A slice is the list of its bytes.
pub mod Header
pub mod Build
use libhttp.Prelude.{
  ℕ, ◌+◌, ◌*◌, ◌/◌, ◌%◌, ◌^◌, List, [], ◌∷◌, ◌++◌, Result, ok, ◌>>=◌, read, take, drop, bit_and,
}
use libhttp.Wire.{put_uint32_in_be_stream, get_uint32_from_be_stream}

abbrev pub stream_id_mask : ℕ
stream_id_mask = 0x7FFFFFFF

abbrev pub frame_header_size : ℕ
frame_header_size = 9

pub record FrameHdr : Type 0 where
  pub length : ℕ
  pub type : ℕ
  pub flags : ℕ
  pub reserved : ℕ
  pub stream_id : ℕ

pub record DataFrame : Type 0 where
  pub hdr : FrameHdr
  pub pad_len : ℕ
  pub body : List ℕ

pub record PrioritySpec : Type 0 where
  pub depend_stream_id : ℕ
  pub weight : ℕ
  pub exclusive : ℕ

pub record HeadersFrame : Type 0 where
  pub hdr : FrameHdr
  pub pad_len : ℕ
  pub pspec : PrioritySpec
  pub header_block_fragment : List ℕ

pub record PriorityFrame : Type 0 where
  pub hdr : FrameHdr
  pub pspec : PrioritySpec

pub record RstStreamFrame : Type 0 where
  pub hdr : FrameHdr
  pub error_code : ℕ

pub record SettingsEntry : Type 0 where
  pub id : ℕ
  pub value : ℕ

pub record SettingsFrame : Type 0 where
  pub hdr : FrameHdr
  pub settings : List SettingsEntry

pub record PushPromiseFrame : Type 0 where
  pub hdr : FrameHdr
  pub pad_len : ℕ
  pub promised_stream_id : ℕ
  pub header_block_fragment : List ℕ
  pub reserved : ℕ

pub record PingFrame : Type 0 where
  pub hdr : FrameHdr
  pub opaque_data : List ℕ

pub record GoawayFrame : Type 0 where
  pub hdr : FrameHdr
  pub last_stream_id : ℕ
  pub error_code : ℕ
  pub debug_data : List ℕ
  pub reserved : ℕ

pub record WindowUpdateFrame : Type 0 where
  pub hdr : FrameHdr
  pub window_size_inc : ℕ
  pub reserved : ℕ

pub record ContinuationFrame : Type 0 where
  pub hdr : FrameHdr
  pub header_block_fragment : List ℕ

-- The fourth byte that the length is written with is overwritten by the type.
unfoldable pub http2_frame_header_pack : FrameHdr → List ℕ
http2_frame_header_pack hd =
    take 3 (put_uint32_in_be_stream (hd.length * 2 ^ 8 % 2 ^ 32))
    ++ (hd.type ∷ hd.flags ∷ put_uint32_in_be_stream hd.stream_id)

unfoldable pub http2_frame_header_unpack : List ℕ → Result FrameHdr
http2_frame_header_unpack buf = do
  w ← get_uint32_from_be_stream buf
  t ← read buf 3
  f ← read buf 4
  s ← get_uint32_from_be_stream (drop 5 buf)
  ok (record {
    length = w / 2 ^ 8;
    type = t;
    flags = f;
    reserved = 0;
    stream_id = bit_and s stream_id_mask;
  })

unfoldable pub http2_frame_header_init : ℕ → ℕ → ℕ → ℕ → FrameHdr
http2_frame_header_init len t f s = record {
  length = len % 2 ^ 32;
  type = t;
  flags = f;
  reserved = 0;
  stream_id = s;
}
