-- ===== src/Frame/Header.antt =====
-- The nine bytes of a frame header: what `pack` writes is what `unpack` reads.
use libhttp.Prelude.{ℕ, ◌+◌, ◌*◌, ◌/◌, ◌%◌, ◌^◌, ◌≡◌, List, [], ◌∷◌, ◌++◌, ok, length, All, arith}
use libhttp.Prelude.Bits.{and-mask}
use libhttp.Wire.{IsByte}
use libhttp.Wire.RoundTrip.{put_uint32_bytes, get_uint32_bytes}
use libhttp.Frame.{FrameHdr, http2_frame_header_pack, http2_frame_header_unpack}

-- The header as it is put on the wire.
pub header_bytes :
    (hd : FrameHdr)
    → http2_frame_header_pack hd
      ≡ (hd.length / 2 ^ 16 % 256)
        ∷ (hd.length / 2 ^ 8 % 256)
        ∷ (hd.length % 256)
        ∷ hd.type
        ∷ hd.flags
        ∷ (hd.stream_id / 2 ^ 24 % 256)
        ∷ (hd.stream_id / 2 ^ 16 % 256)
        ∷ (hd.stream_id / 2 ^ 8 % 256)
        ∷ (hd.stream_id % 256)
        ∷ []
unfolding http2_frame_header_pack
header_bytes hd =
    rw (put_uint32_bytes (hd.length * 2 ^ 8 % 2 ^ 32), put_uint32_bytes hd.stream_id) (ground arith)

-- `pack` writes nine bytes.
pub length-header_pack : (hd : FrameHdr) → length (http2_frame_header_pack hd) ≡ 9
length-header_pack hd = rw (header_bytes hd)

-- A header whose type and flags are bytes is read back from where it was written, whatever follows: the
-- reserved bit is read as 0, the length keeps its low 24 bits and the stream its low 31, so that nothing
-- changes for those that fit.
pub unpack-pack :
    (hd : FrameHdr) (rest : List ℕ)
    → IsByte hd.type
    → IsByte hd.flags
    → http2_frame_header_unpack (http2_frame_header_pack hd ++ rest)
      ≡ ok (record {
        length = hd.length % 2 ^ 24;
        type = hd.type;
        flags = hd.flags;
        reserved = 0;
        stream_id = hd.stream_id % 2 ^ 31;
      })
unfolding http2_frame_header_unpack
unpack-pack hd rest ht hf = rw (header_bytes hd) (
    ground (
      arith,
      get_uint32_bytes (hd.length / 2 ^ 16 % 256) (hd.length / 2 ^ 8 % 256) (hd.length % 256)
          hd.type
          (hd.flags
            ∷ (hd.stream_id / 2 ^ 24 % 256)
            ∷ (hd.stream_id / 2 ^ 16 % 256)
            ∷ (hd.stream_id / 2 ^ 8 % 256)
            ∷ (hd.stream_id % 256)
            ∷ rest),
      get_uint32_bytes (hd.stream_id / 2 ^ 24 % 256) (hd.stream_id / 2 ^ 16 % 256)
          (hd.stream_id / 2 ^ 8 % 256) (hd.stream_id % 256) rest,
      and-mask 31 (
          hd.stream_id / 2 ^ 24 % 256 * 2 ^ 24
          + hd.stream_id / 2 ^ 16 % 256 * 2 ^ 16
          + hd.stream_id / 2 ^ 8 % 256 * 2 ^ 8
          + hd.stream_id % 256),
    ))

-- The nine bytes of a header are written back as they were read, but for the reserved bit, which is
-- cleared.
pub pack-unpack :
    (l2 l1 l0 t f s3 s2 s1 s0 : ℕ) (rest : List ℕ)
    → All IsByte (l2 ∷ l1 ∷ l0 ∷ t ∷ f ∷ s3 ∷ s2 ∷ s1 ∷ s0 ∷ [])
    → (hd : FrameHdr) × (http2_frame_header_unpack (l2 ∷ l1 ∷ l0 ∷ t ∷ f ∷ s3 ∷ s2 ∷ s1 ∷ s0 ∷ rest)
        ≡ ok hd)
      × (http2_frame_header_pack hd ≡ l2 ∷ l1 ∷ l0 ∷ t ∷ f ∷ (s3 % 128) ∷ s2 ∷ s1 ∷ s0 ∷ [])
unfolding http2_frame_header_unpack
pack-unpack l2 l1 l0 t f s3 s2 s1 s0 rest h =
    let hd : FrameHdr = record {
      length = l2 * 2 ^ 16 + l1 * 2 ^ 8 + l0;
      type = t;
      flags = f;
      reserved = 0;
      stream_id = s3 % 128 * 2 ^ 24 + s2 * 2 ^ 16 + s1 * 2 ^ 8 + s0;
    } in
    (
      hd,
      ground (
        arith,
        get_uint32_bytes l2 l1 l0 t (f ∷ s3 ∷ s2 ∷ s1 ∷ s0 ∷ rest),
        get_uint32_bytes s3 s2 s1 s0 rest,
        and-mask 31 (s3 * 2 ^ 24 + s2 * 2 ^ 16 + s1 * 2 ^ 8 + s0),
      ),
      rw (header_bytes hd) (ground arith),
    )
