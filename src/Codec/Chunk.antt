-- ===== src/Codec/Chunk.antt =====
-- One chunk of a DATA frame: its header, and how it is read.
use libhttp.Prelude.{
  ℕ, zero, suc, ◌^◌, ◌<◌, ◌≤◌, ◌≡◌, refl, ◌⊎◌, List, [], ◌∷◌, true, false, Bool, length, drop,
  if◌then◌else◌, arith,
}
use libhttp.Prelude.{leb, ltb, ◌==◌}
use libhttp.Prelude.Bits.{or-zero}
use libhttp.Types.{Http2FrameFlag, has_flag}
use libhttp.Types.Flags.{clear_end_stream, set_end_stream}
use libhttp.Wire.{IsByte}
use libhttp.Frame.{FrameHdr}
use libhttp.Parser.{unpad, parse_http2_frame_data}
use libhttp.Pack.{pack_frame, chunk_hdr}
use libhttp.Codec.{IsHdr, Arrives, Arrives-of, view-append}

abbrev pub is_empty {ℓ} : {A : Type ℓ} → List A → Bool
is_empty [] = true
is_empty (x ∷ xs) = false

-- An unpadded frame of its own size is sent and read back.
pub chunk-Arrives :
    (h : FrameHdr) (bs : List ℕ)
    → IsHdr h
    → has_flag h.flags Http2FrameFlag.padded ≡ false
    → length bs ≡ h.length
    → Arrives
        (pack_frame h.length h bs)
        parse_http2_frame_data
        (record { hdr = h; pad_len = 0; body = bs })
unfolding parse_http2_frame_data unpad
chunk-Arrives h bs i p e =
    Arrives-of parse_http2_frame_data h.length h bs _ i e
      (λ rest. ground (arith, view-append bs rest h.length))

-- What the loop keeps of the header it starts from: `es` is the END_STREAM bit that was taken off.
pub record IsLoopHdr (h : FrameHdr) (es : ℕ) (stream_id : ℕ) (ended : Bool) : Type 0 where
  pub type_fits : IsByte h.type
  pub flags_fit : IsByte h.flags
  pub unreserved : h.reserved ≡ 0
  pub stream_id_fits : h.stream_id < 2 ^ 31
  pub same_stream : h.stream_id ≡ stream_id
  pub unpadded : has_flag h.flags Http2FrameFlag.padded ≡ false
  pub ending :
      ((es ≡ 0) × (ended ≡ false) × (has_flag h.flags Http2FrameFlag.end_stream ≡ false))
      ⊎ ((es ≡ 1) × (ended ≡ true))

pub record IsChunkHdr (h : FrameHdr) (max_frame_size remain : ℕ) (ended : Bool) : Type 0 where
  pub within : h.length ≤ max_frame_size
  pub progress : 1 ≤ h.length
  pub available : h.length ≤ remain
  pub flagged :
      has_flag h.flags Http2FrameFlag.end_stream ≡ (if leb remain h.length then ended else false)

-- What a round sends of the `remain` bytes.
abbrev pub sized_hdr : FrameHdr → ℕ → ℕ → ℕ → FrameHdr
sized_hdr hdr es max_frame_size remain =
    let len = if ltb remain max_frame_size then remain else max_frame_size in
    chunk_hdr hdr es (leb remain len) len

module _ (hdr : FrameHdr) (es stream_id max_frame_size remain : ℕ) (ended : Bool)
    (i : IsLoopHdr hdr es stream_id ended) (some_room : 1 ≤ max_frame_size)
    (some_left : 1 ≤ remain) where
  pub sized_hdr-IsLoopHdr : IsLoopHdr (sized_hdr hdr es max_frame_size remain) es stream_id ended
  unfolding chunk_hdr
  sized_hdr-IsLoopHdr = ground (
    arith,
    i.ending,
    clear_end_stream hdr.flags i.flags_fit,
    set_end_stream hdr.flags i.flags_fit,
    or-zero hdr.flags,
  )

  pub sized_hdr-IsChunkHdr :
      IsChunkHdr (sized_hdr hdr es max_frame_size remain) max_frame_size remain ended
  unfolding chunk_hdr
  sized_hdr-IsChunkHdr = ground (
    arith,
    i.ending,
    clear_end_stream hdr.flags i.flags_fit,
    set_end_stream hdr.flags i.flags_fit,
    or-zero hdr.flags,
  )

pub suc-eq-zero : (n : ℕ) → (suc n == 0) ≡ false
suc-eq-zero n = ground arith

pub is_empty-drop : (n : ℕ) (xs : List ℕ) → is_empty (drop n xs) ≡ leb (length xs) n
is_empty-drop zero [] = refl
is_empty-drop zero (x ∷ xs) = ground arith
is_empty-drop (suc n) [] = ground arith
is_empty-drop (suc n) (x ∷ xs) = ground (arith, is_empty-drop n xs)
