-- ===== src/Codec/Data.antt =====
-- DATA frames: a body is cut into frames that the peer's MAX_FRAME_SIZE allows.
use libhttp.Prelude.{
  ℕ, zero, suc, ◌^◌, ◌<◌, ◌≤◌, ◌≡◌, refl, sym, ap, ◌∙◌, ◌⊎◌, List, [], ◌∷◌, ◌++◌, Option, some,
  true, false, Bool, ok, length, take, drop, take-append-drop, length-take, length-drop, append-nil,
  if◌then◌else◌, arith, bit_or, bit_and,
}
use libhttp.Prelude.{◌==◌, ◌+◌, ◌-◌, ◌%◌, leb, ltb, Bool-cases, inl, inr}
use libhttp.SliceBuffer.Bytes.{drop-drop}
use libhttp.Prelude.Bits.{or-zero, and-bit}
use libhttp.Types.{Http2FrameFlag, flag_bits, has_flag, clear_flag}
use libhttp.Types.Flags.{clear_padded, set_end_stream}
use libhttp.Wire.{IsByte}
use libhttp.Frame.{FrameHdr, DataFrame}
use libhttp.Parser.{parse_http2_frame_data}
use libhttp.Pack.{
  pack_frame, chunk_hdr, chunk_length, data_chunks, cons_chunk, pack_http2_frame_data,
}
use libhttp.Codec.{receive}
use libhttp.Codec.Chunk.{
  is_empty, chunk-Arrives, IsLoopHdr, IsChunkHdr, sized_hdr, sized_hdr-IsLoopHdr,
  sized_hdr-IsChunkHdr, suc-eq-zero, is_empty-drop,
}

-- Each slice is read as the frame that stands in its place.
abbrev pub Received : List (List ℕ) → List DataFrame → Type 0
Received [] [] = Unit
Received [] (f ∷ fs) = ⊥
Received (c ∷ cs) [] = ⊥
Received (c ∷ cs) (f ∷ fs) = (receive parse_http2_frame_data c ≡ ok f) × Received cs fs

-- The frames carry the body in order, on one stream, each within the limit, and none but the last
-- ends the stream.
abbrev pub Carries : ℕ → Bool → ℕ → List ℕ → List DataFrame → Type 0
Carries stream_id ended max_frame_size body [] = body ≡ []
Carries stream_id ended max_frame_size body (f ∷ fs) =
    (rest : List ℕ) × (body ≡ f.body ++ rest)
    × (length f.body ≤ max_frame_size)
    × (f.hdr.stream_id ≡ stream_id)
    × (f.pad_len ≡ 0)
    × (has_flag f.hdr.flags Http2FrameFlag.end_stream ≡ (if is_empty fs then ended else false))
    × Carries stream_id ended max_frame_size rest fs

-- The slices and the frames that they are read as.
abbrev Sends : ℕ → Bool → ℕ → List ℕ → Option (List (List ℕ)) → Type 0
Sends stream_id ended max_frame_size body packed =
    (cs : List (List ℕ)) × (fs : List DataFrame) × (packed ≡ some cs)
    × Received cs fs
    × Carries stream_id ended max_frame_size body fs
    × (is_empty fs ≡ is_empty body)

drop-all : (n : ℕ) (xs : List ℕ) → length xs ≤ n → drop n xs ≡ []
drop-all zero [] h = refl
drop-all zero (x ∷ xs) h = absurd (omega arith)
drop-all (suc n) [] h = refl
drop-all (suc n) (x ∷ xs) h = drop-all n xs (omega arith)

data_chunks-done :
    (fuel : ℕ) (hdr : FrameHdr) (es m : ℕ) (body : List ℕ) (n : ℕ)
    → length body ≤ n
    → data_chunks fuel hdr es m body n ≡ some []
unfolding data_chunks
data_chunks-done zero hdr es m body n h =
    let over : ltb n (length body) ≡ false = ground arith in rw over refl
data_chunks-done (suc fuel) hdr es m body n h =
    let over : ltb n (length body) ≡ false = ground arith in rw (data_chunks, over) refl

-- Within 32 bits nothing wraps: a round sends the bytes left, as far as a frame takes them.
data_chunks_step :
    (fuel : ℕ) (hdr : FrameHdr) (es m : ℕ) (body : List ℕ) (n : ℕ)
    → length body < 2 ^ 32
    → n < length body
    → 1 ≤ m
    → data_chunks (suc fuel) hdr es m body n ≡ (
        let h = sized_hdr hdr es m (length (drop n body)) in
        cons_chunk
          (pack_frame h.length h (take h.length (drop n body)))
          (data_chunks fuel h es m body (n + h.length)))
unfolding data_chunks chunk_length chunk_hdr
data_chunks_step fuel hdr es m body n small more some_room =
    let size = length-drop n body in
    let left = length (drop n body) in
    let len = if ltb left m then left else m in
    let left_is : (length body % 2 ^ 32 + 2 ^ 32 - n) % 2 ^ 32 ≡ left = omega arith in
    let at_most : len ≤ left = ground arith in
    let on : (n + len) % 2 ^ 32 ≡ n + len = omega arith in
    let last : leb (length body) (n + len) ≡ leb left len = ground arith in
    let inside : ltb n (length body) ≡ true = ground arith in
    rw (data_chunks, inside, left_is, on, last) refl

module _ (stream_id max_frame_size : ℕ) (ended : Bool) (some_room : 1 ≤ max_frame_size)
    (fits : max_frame_size < 2 ^ 24) where
  -- One frame in front of what the rest of the loop sends.
  Sends-cons :
      (h : FrameHdr) (es : ℕ) (body : List ℕ) (r : Option (List (List ℕ)))
      → IsLoopHdr h es stream_id ended
      → IsChunkHdr h max_frame_size (length body) ended
      → is_empty body ≡ false
      → Sends stream_id ended max_frame_size (drop h.length body) r
      → Sends stream_id ended max_frame_size body
          (cons_chunk (pack_frame h.length h (take h.length body)) r)
  unfolding cons_chunk
  Sends-cons h es body r i c ne (cs, fs, e, received, carries, ends) =
      let here = take h.length body in
      let sized : length here ≡ h.length = omega (arith, length-take h.length body, c.available) in
      let (bytes, packed, read) =
        chunk-Arrives h here (omega (arith, i.flags_fit, i.type_fits, c.within)) i.unpadded sized in
      let f : DataFrame = record { hdr = h; pad_len = 0; body = here } in
      (
        bytes ∷ cs,
        f ∷ fs,
        rw (packed, e) refl,
        (ap (receive parse_http2_frame_data) (sym (append-nil bytes)) ∙ read [], received),
        (
          drop h.length body,
          sym (take-append-drop h.length body),
          omega (arith, c.within),
          i.same_stream,
          refl,
          ground (arith, c.flagged, is_empty-drop h.length body),
          carries,
        ),
        sym ne,
      )

  done-Sends :
      (fuel : ℕ) (hdr : FrameHdr) (es : ℕ) (body : List ℕ) (n : ℕ)
      → length body ≤ n
      → Sends stream_id ended max_frame_size
          (drop n body)
          (data_chunks fuel hdr es max_frame_size body n)
  done-Sends fuel hdr es body n over =
      rw (data_chunks-done fuel hdr es max_frame_size body n over, drop-all n body over)
        ([], [], refl, tt, refl, refl)

  data_chunks-Sends :
      (fuel : ℕ) (hdr : FrameHdr) (es : ℕ) (body : List ℕ) (n : ℕ)
      → IsLoopHdr hdr es stream_id ended
      → length body < 2 ^ 32
      → length body ≤ n + fuel
      → Sends stream_id ended max_frame_size
          (drop n body)
          (data_chunks fuel hdr es max_frame_size body n)
  data_chunks-Sends zero hdr es body n i small enough = done-Sends zero hdr es body n (omega arith)
  data_chunks-Sends (suc fuel) hdr es body n i small enough =
      elim (Bool-cases (ltb n (length body))) [
        | inr done ↦ done-Sends (suc fuel) hdr es body n (ground arith)
        | inl more ↦
            let within : n < length body = ground arith in
            let size = length-drop n body in
            let remain = length (drop n body) in
            let h = sized_hdr hdr es max_frame_size remain in
            let ih =
              sized_hdr-IsLoopHdr hdr es stream_id max_frame_size remain ended i some_room
                (omega arith) in
            let ch =
              sized_hdr-IsChunkHdr hdr es stream_id max_frame_size remain ended i some_room
                (omega arith) in
            let left : is_empty (drop n body) ≡ false = ground (arith, is_empty-drop n body) in
            let rest =
              data_chunks-Sends fuel h es body (n + h.length) ih small
                (omega (arith, ch.progress)) in
            rw (data_chunks_step fuel hdr es max_frame_size body n small within some_room) (
              Sends-cons h es (drop n body)
                (data_chunks fuel h es max_frame_size body (n + h.length)) ih ch left
                (rw (drop-drop n h.length body refl) rest))
      ]

  abbrev SendsSome : List ℕ → Option (List (List ℕ)) → Type 0
  SendsSome body packed =
      (cs : List (List ℕ)) × (fs : List DataFrame) × (packed ≡ some cs)
      × Received cs fs
      × Carries stream_id ended max_frame_size body fs
      × (is_empty fs ≡ false)

  last_flags :
      (hdr : FrameHdr) (es : ℕ)
      → IsLoopHdr hdr es stream_id ended
      → (bit_or hdr.flags es < 256)
        × (has_flag (bit_or hdr.flags es) Http2FrameFlag.padded ≡ false)
        × (has_flag (bit_or hdr.flags es) Http2FrameFlag.end_stream ≡ ended)
  last_flags hdr es i =
      ground (arith, i.ending, set_end_stream hdr.flags i.flags_fit, or-zero hdr.flags)

  -- An empty body is one frame, which bears the flag.
  empty-Sends :
      (hdr : FrameHdr) (es : ℕ)
      → IsLoopHdr hdr es stream_id ended
      → SendsSome [] (
          cons_chunk
            (pack_frame 0 (record hdr { length = 0; flags = bit_or hdr.flags es }) [])
            (some []))
  unfolding cons_chunk
  empty-Sends hdr es i =
      let h : FrameHdr = record hdr { length = 0; flags = bit_or hdr.flags es } in
      let (fit, unpadded, ends) = last_flags hdr es i in
      let (bytes, packed, read) =
        chunk-Arrives h [] (omega (arith, i.type_fits, fit)) unpadded refl in
      (
        bytes ∷ [],
        record { hdr = h; pad_len = 0; body = [] } ∷ [],
        rw packed refl,
        (ap (receive parse_http2_frame_data) (sym (append-nil bytes)) ∙ read [], tt),
        ([], refl, omega arith, i.same_stream, refl, ends, refl),
        refl,
      )

  packed-SendsSome :
      (hdr : FrameHdr) (es : ℕ) (body : List ℕ)
      → IsLoopHdr hdr es stream_id ended
      → length body < 2 ^ 32
      → SendsSome body (
          if length body == 0
          then cons_chunk
              (pack_frame 0 (record hdr { length = 0; flags = bit_or hdr.flags es }) [])
              (some [])
          else data_chunks (length body) hdr es max_frame_size body 0)
  packed-SendsSome hdr es [] i small = empty-Sends hdr es i
  packed-SendsSome hdr es (b ∷ bs) i small =
      rw (suc-eq-zero (length bs))
        (data_chunks-Sends (suc (length bs)) hdr es (b ∷ bs) 0 i small (omega arith))

starts :
    (hdr : FrameHdr)
    → IsByte hdr.type
    → IsByte hdr.flags
    → hdr.reserved ≡ 0
    → hdr.stream_id < 2 ^ 31
    → (let flags = clear_flag hdr.flags Http2FrameFlag.padded in
        IsLoopHdr
          (record hdr { flags = flags })
          (bit_and flags (flag_bits Http2FrameFlag.end_stream))
          hdr.stream_id
          (has_flag hdr.flags Http2FrameFlag.end_stream))
starts hdr ht hf hr hs =
    ground (
      arith,
      clear_padded hdr.flags hf,
      end_stream_bit (clear_flag hdr.flags Http2FrameFlag.padded),
    )
  where
    end_stream_bit :
        (x : ℕ)
        → ((bit_and x 1 ≡ 0) × (has_flag x Http2FrameFlag.end_stream ≡ false))
          ⊎ ((bit_and x 1 ≡ 1) × (has_flag x Http2FrameFlag.end_stream ≡ true))
    end_stream_bit x = unfold has_flag in ground (arith, and-bit 0 x)

-- A DATA frame with a body of less than 2^32 bytes, with a type and flags that fit and a stream below
-- 2^31, is sent, for every MAX_FRAME_SIZE from 1 to 2^24 - 1: the loop ends within its fuel, and the slices are read at the other end as one or more frames of the
-- same stream that carry the body in order, each within MAX_FRAME_SIZE and without padding, of which
-- the last ends the stream exactly if the frame did, and no other does.
pub pack_data-Carries :
    (f : DataFrame) (max_frame_size : ℕ)
    → IsByte f.hdr.type
    → IsByte f.hdr.flags
    → f.hdr.reserved ≡ 0
    → f.hdr.stream_id < 2 ^ 31
    → 1 ≤ max_frame_size
    → max_frame_size < 2 ^ 24
    → length f.body < 2 ^ 32
    → (cs : List (List ℕ)) × (fs : List DataFrame) × (pack_http2_frame_data f max_frame_size
        ≡ some cs)
      × Received cs fs
      × Carries f.hdr.stream_id
          (has_flag f.hdr.flags Http2FrameFlag.end_stream)
          max_frame_size
          f.body
          fs
      × (is_empty fs ≡ false)
unfolding pack_http2_frame_data
pack_data-Carries f m ht hf hr hs some_room fits small =
    packed-SendsSome f.hdr.stream_id m (has_flag f.hdr.flags Http2FrameFlag.end_stream) some_room
      fits (record (f.hdr) { flags = clear_flag f.hdr.flags Http2FrameFlag.padded }) _ f.body
      (starts f.hdr ht hf hr hs) small
