-- ===== src/Codec/Padded.antt =====
-- The frames that may carry padding: HEADERS and PUSH_PROMISE.
use libhttp.Prelude.{
  ℕ, suc, ◌+◌, ◌-◌, ◌%◌, ◌^◌, ◌<◌, ◌≤◌, ◌≡◌, refl, ap, ◌∙◌, List, [], ◌∷◌, ◌++◌, true, false, ok,
  view, length, append_assoc, length-append, length-replicate, replicate, arith, if◌then◌else◌,
  Bool-cases, inl, inr, drop, read,
}
use libhttp.Types.{Http2FrameFlag, has_flag}
use libhttp.Wire.{put_uint32_in_be_stream}
use libhttp.Wire.RoundTrip.{get_uint32-put_uint32}
use libhttp.Frame.{FrameHdr, HeadersFrame, PushPromiseFrame}
use libhttp.Frame.Build.{no_priority}
use libhttp.Parser.{
  unpad, parse_http2_frame_headers, parse_http2_frame_push_promise, parse_priority_spec,
}
use libhttp.Pack.{dependency, pad_field, pack_http2_frame_headers, pack_http2_frame_push_promise}
use libhttp.Codec.{IsHdr, Arrives, Arrives-of, view-append}
use libhttp.Codec.Fields.{
  IsSpec, length-put_uint32, read-put_uint32, view-put_uint32, masked, top_bit_clear,
  parse_priority_spec-dependency,
}

-- The padding field and what the parsers make of it.
abbrev pad_offset : FrameHdr → ℕ
pad_offset hdr = if has_flag hdr.flags Http2FrameFlag.padded then 1 else 0

-- Without the PADDED flag there is no padding.
abbrev pub IsPadding : FrameHdr → ℕ → Type 0
IsPadding hdr pad_len = has_flag hdr.flags Http2FrameFlag.padded ≡ false → pad_len ≡ 0

unpad-pad_field :
    (hdr : FrameHdr) (pad_len n : ℕ) (tail : List ℕ)
    → IsPadding hdr pad_len
    → hdr.length ≡ pad_offset hdr + (n + pad_len)
    → hdr.length < 2 ^ 24
    → unpad hdr (pad_field hdr pad_len ++ tail)
      ≡ ok (record { pad_length = pad_len; offset = pad_offset hdr; size = n })
unfolding unpad pad_field
unpad-pad_field hdr pad_len n tail p e fits = ground arith

length-pad_field : (hdr : FrameHdr) (pad_len : ℕ) → length (pad_field hdr pad_len) ≡ pad_offset hdr
unfolding pad_field
length-pad_field hdr pad_len = ground arith

drop-pad_field :
    (hdr : FrameHdr) (pad_len : ℕ) (tail : List ℕ)
    → drop (pad_offset hdr) (pad_field hdr pad_len ++ tail) ≡ tail
unfolding pad_field
drop-pad_field hdr pad_len tail = ground arith

read-pad_field :
    (hdr : FrameHdr) (pad_len : ℕ) (tail : List ℕ)
    → read (pad_field hdr pad_len ++ tail) (pad_offset hdr) ≡ read tail 0
unfolding pad_field
read-pad_field hdr pad_len tail = ground arith

view-cons : (x : ℕ) (xs : List ℕ) (k i n : ℕ) → k ≡ suc i → view (x ∷ xs) k n ≡ view xs i n
view-cons x xs k i n e = rw e (ground arith)

view-pad_field :
    (hdr : FrameHdr) (pad_len i n : ℕ) (tail : List ℕ)
    → view (pad_field hdr pad_len ++ tail) (pad_offset hdr + i) n ≡ view tail i n
unfolding pad_field
view-pad_field hdr pad_len i n tail = elim (Bool-cases (has_flag hdr.flags Http2FrameFlag.padded)) [
  | inl e ↦ rw e (view-cons pad_len tail (1 + i) i n (omega arith))
  | inr e ↦ rw e (ap (λ (k : ℕ). view tail k n) (omega arith))
]

abbrev spec_size : FrameHdr → ℕ
spec_size hdr = if has_flag hdr.flags Http2FrameFlag.priority then 5 else 0

abbrev spec_bytes : HeadersFrame → List ℕ
spec_bytes f =
    if has_flag f.hdr.flags Http2FrameFlag.priority
    then put_uint32_in_be_stream (dependency f.pspec) ++ (((f.pspec.weight + 255) % 256) ∷ [])
    else []

length-spec_bytes : (f : HeadersFrame) → length (spec_bytes f) ≡ spec_size f.hdr
length-spec_bytes f = ground (
  arith,
  length-append (put_uint32_in_be_stream (dependency f.pspec))
      (((f.pspec.weight + 255) % 256) ∷ []),
  length-put_uint32 (dependency f.pspec),
)

-- The fields of a HEADERS frame agree: the length counts the padding field, the specification, the
-- block and the padding; the specification fits if it is sent, and is zero if not; and what is left
-- without padding has the five bytes that the parser wants.
pub record IsHeaders (f : HeadersFrame) : Type 0 where
  pub hdr_fits : IsHdr f.hdr
  pub padding : IsPadding f.hdr f.pad_len
  pub sized :
      f.hdr.length
      ≡ pad_offset f.hdr + (spec_size f.hdr + length f.header_block_fragment + f.pad_len)
  pub spec_fits : has_flag f.hdr.flags Http2FrameFlag.priority ≡ true → IsSpec f.pspec
  pub spec_absent : has_flag f.hdr.flags Http2FrameFlag.priority ≡ false → f.pspec ≡ no_priority
  pub long_enough : 5 ≤ spec_size f.hdr + length f.header_block_fragment

-- A specification that is sent is parsed, and what follows it stands five bytes on.
spec_bytes_then :
    (f : HeadersFrame) (behind : List ℕ)
    → IsSpec f.pspec
    → has_flag f.hdr.flags Http2FrameFlag.priority ≡ true
    → (n : ℕ)
    → (parse_priority_spec (spec_bytes f ++ behind) ≡ ok f.pspec)
      × (view (spec_bytes f ++ behind) 5 n ≡ view behind 0 n)
spec_bytes_then f behind h e n =
    let w = (f.pspec.weight + 255) % 256 in
    let d = dependency f.pspec in
    rw e (
      rw (append_assoc (put_uint32_in_be_stream d) (w ∷ []) behind) (
        parse_priority_spec-dependency f.pspec w behind h (omega arith),
        view-put_uint32 d 5 1 n (w ∷ behind) refl ∙ view-cons w behind 1 0 n refl,
      ))

headers-parses :
    (f : HeadersFrame) (h : IsHeaders f) (behind : List ℕ)
    → parse_http2_frame_headers f.hdr
        (pad_field f.hdr f.pad_len ++ (spec_bytes f ++ (f.header_block_fragment ++ behind)))
      ≡ ok f
unfolding parse_http2_frame_headers
headers-parses f h behind =
    let n = spec_size f.hdr + length f.header_block_fragment in
    let tail = spec_bytes f ++ (f.header_block_fragment ++ behind) in
    let unpadded =
      unpad-pad_field f.hdr f.pad_len n tail h.padding (omega (arith, h.sized))
        h.hdr_fits.length_fits in
    elim (Bool-cases (has_flag f.hdr.flags Http2FrameFlag.priority)) [
      | inl e ↦ ground (
        arith,
        unpadded,
        drop-pad_field f.hdr f.pad_len tail,
        view-pad_field f.hdr f.pad_len 5 (n - 5) tail,
        spec_bytes_then f (f.header_block_fragment ++ behind) (h.spec_fits e) e (n - 5),
        view-append f.header_block_fragment behind (n - 5),
        h.long_enough,
      )
      | inr e ↦ ground (
        arith,
        unpadded,
        h.spec_absent e,
        view-pad_field f.hdr f.pad_len 0 n tail,
        view-append f.header_block_fragment behind n,
        h.long_enough,
      )
    ]

-- A HEADERS frame arrives as it was sent, padded or not, prioritised or not, if its header fits, its
-- length counts the padding field, the specification, the block and the padding, it has no padding
-- without the PADDED flag, its specification fits (with the PRIORITY flag) or is zero (without), and
-- the specification and the block together have five bytes at least.
pub headers-Arrives :
    (f : HeadersFrame)
    → IsHeaders f
    → Arrives (pack_http2_frame_headers f) parse_http2_frame_headers f
unfolding pack_http2_frame_headers
headers-Arrives f h =
    let spec = spec_bytes f in
    let block = f.header_block_fragment ++ replicate f.pad_len 0 in
    Arrives-of parse_http2_frame_headers f.hdr.length f.hdr
      (pad_field f.hdr f.pad_len ++ (spec ++ block)) f h.hdr_fits
      (omega (
        arith,
        length-append (pad_field f.hdr f.pad_len) (spec ++ block),
        length-append spec block,
        length-append f.header_block_fragment (replicate f.pad_len 0),
        length-replicate {0} {A = ℕ} f.pad_len 0,
        length-pad_field f.hdr f.pad_len,
        length-spec_bytes f,
        h.sized,
      ))
      (λ rest.
        rw
          (
            append_assoc (pad_field f.hdr f.pad_len) (spec ++ block) rest,
            append_assoc spec block rest,
            append_assoc f.header_block_fragment (replicate f.pad_len 0) rest,
          )
          (headers-parses f h (replicate f.pad_len 0 ++ rest)))

-- The fields of a PUSH_PROMISE frame agree.
pub record IsPushPromise (f : PushPromiseFrame) : Type 0 where
  pub hdr_fits : IsHdr f.hdr
  pub padding : IsPadding f.hdr f.pad_len
  pub sized : f.hdr.length ≡ pad_offset f.hdr + (4 + length f.header_block_fragment + f.pad_len)
  pub promised_fits : f.promised_stream_id < 2 ^ 31
  pub unreserved : f.reserved ≡ 0

push_promise-parses :
    (f : PushPromiseFrame) (h : IsPushPromise f) (behind : List ℕ)
    → parse_http2_frame_push_promise f.hdr (
        pad_field f.hdr f.pad_len
        ++ (put_uint32_in_be_stream f.promised_stream_id ++ (f.header_block_fragment ++ behind)))
      ≡ ok f
unfolding parse_http2_frame_push_promise
push_promise-parses f h behind =
    let n = length f.header_block_fragment in
    let after = f.header_block_fragment ++ behind in
    let tail = put_uint32_in_be_stream f.promised_stream_id ++ after in
    ground (
      arith,
      unpad-pad_field f.hdr f.pad_len (4 + n) tail h.padding (omega (arith, h.sized))
          h.hdr_fits.length_fits,
      drop-pad_field f.hdr f.pad_len tail,
      read-pad_field f.hdr f.pad_len tail,
      get_uint32-put_uint32 f.promised_stream_id after,
      read-put_uint32 f.promised_stream_id after,
      masked f.promised_stream_id h.promised_fits,
      top_bit_clear f.promised_stream_id h.promised_fits,
      view-pad_field f.hdr f.pad_len 4 (4 + n - 4) tail,
      view-put_uint32 f.promised_stream_id 4 0 (4 + n - 4) after,
      view-append f.header_block_fragment behind (4 + n - 4),
      h.unreserved,
    )

-- A PUSH_PROMISE frame whose fields agree (the length counts the padding field, the promised stream,
-- the block and the padding; the promised stream fits 31 bits) arrives as it was sent, padded or not.
pub push_promise-Arrives :
    (f : PushPromiseFrame)
    → IsPushPromise f
    → Arrives (pack_http2_frame_push_promise f) parse_http2_frame_push_promise f
unfolding pack_http2_frame_push_promise
push_promise-Arrives f h =
    let promised = put_uint32_in_be_stream f.promised_stream_id in
    let block = f.header_block_fragment ++ replicate f.pad_len 0 in
    Arrives-of parse_http2_frame_push_promise f.hdr.length f.hdr
      (pad_field f.hdr f.pad_len ++ (promised ++ block)) f h.hdr_fits
      (omega (
        arith,
        length-append (pad_field f.hdr f.pad_len) (promised ++ block),
        length-append promised block,
        length-append f.header_block_fragment (replicate f.pad_len 0),
        length-replicate {0} {A = ℕ} f.pad_len 0,
        length-pad_field f.hdr f.pad_len,
        length-put_uint32 f.promised_stream_id,
        h.sized,
      ))
      (λ rest.
        rw
          (
            append_assoc (pad_field f.hdr f.pad_len) (promised ++ block) rest,
            append_assoc promised block rest,
            append_assoc f.header_block_fragment (replicate f.pad_len 0) rest,
          )
          (push_promise-parses f h (replicate f.pad_len 0 ++ rest)))
