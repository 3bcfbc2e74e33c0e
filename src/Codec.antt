-- ===== src/Codec.antt =====
-- A frame from one end to the other: `package_process` of src/http2/connection.cc unpacks the header
-- and hands what follows it to the parser of the frame's type.
pub mod Fields
pub mod Control
pub mod Blocks
pub mod Padded
pub mod Settings
pub mod Chunk
pub mod Data
pub mod Safety
pub mod Prefix
pub mod Built
use libhttp.Prelude.{
  ℕ, ◌+◌, ◌*◌, ◌/◌, ◌%◌, ◌^◌, ◌<◌, ◌≤◌, ◌≡◌, refl, sym, ap, ◌∙◌, List, [], ◌∷◌, ◌++◌, Option, some,
  Result, ok, ◌>>=◌, view, length, take, drop, take_all, take-append, drop-append, length-append,
  append_assoc, arith, leb,
}
use libhttp.Wire.{IsByte}
use libhttp.Frame.{FrameHdr, frame_header_size, http2_frame_header_pack, http2_frame_header_unpack}
use libhttp.Frame.Header.{length-header_pack, unpack-pack}
use libhttp.Pack.{pack_frame}

-- The header at the front of the buffer, then the payload parser on what follows.
unfoldable pub receive {ℓ} : {A : Type ℓ} → (FrameHdr → List ℕ → Result A) → List ℕ → Result A
receive parse buf = do hdr ← http2_frame_header_unpack buf; parse hdr (drop frame_header_size buf)

-- The fields fit the wire.
pub record IsHdr (hd : FrameHdr) : Type 0 where
  pub length_fits : hd.length < 2 ^ 24
  pub type_fits : IsByte hd.type
  pub flags_fit : IsByte hd.flags
  pub unreserved : hd.reserved ≡ 0
  pub stream_id_fits : hd.stream_id < 2 ^ 31

-- `packed` is what the code sends, and whatever follows it, the other end makes `result` of it.
abbrev pub ArrivesAs {ℓ} :
    {A : Type ℓ} → Option (List ℕ) → (FrameHdr → List ℕ → Result A) → Result A → Type ℓ
ArrivesAs packed parse result =
    (bytes : List ℕ) × (packed ≡ some bytes)
    × ((rest : List ℕ) → receive parse (bytes ++ rest) ≡ result)

-- The other end reads the frame that was sent.
abbrev pub Arrives {ℓ} :
    {A : Type ℓ} → Option (List ℕ) → (FrameHdr → List ℕ → Result A) → A → Type ℓ
Arrives packed parse frame = ArrivesAs packed parse (ok frame)

unpack-pack_fits :
    (hd : FrameHdr) (rest : List ℕ)
    → IsHdr hd
    → http2_frame_header_unpack (http2_frame_header_pack hd ++ rest) ≡ ok hd
unpack-pack_fits hd rest h = unpack-pack hd rest h.type_fits h.flags_fit ∙ ground arith

receive-pack {ℓ} :
    {A : Type ℓ} (parse : FrameHdr → List ℕ → Result A) (hd : FrameHdr) (payload rest : List ℕ)
    → IsHdr hd
    → receive parse ((http2_frame_header_pack hd ++ payload) ++ rest) ≡ parse hd (payload ++ rest)
unfolding receive
receive-pack parse hd payload rest h = rw (append_assoc (http2_frame_header_pack hd) payload rest) (
    rw (unpack-pack_fits hd (payload ++ rest) h) (
      ap (parse hd)
        (drop-append (http2_frame_header_pack hd) (payload ++ rest) (sym (length-header_pack hd)))))

-- A payload of the size that the buffer is allocated for, and what its parser makes of it.
pub ArrivesAs-of {ℓ} :
    {A : Type ℓ} (parse : FrameHdr → List ℕ → Result A) (n : ℕ) (hd : FrameHdr) (payload : List ℕ)
    (result : Result A)
    → IsHdr hd
    → length payload ≡ n
    → ((rest : List ℕ) → parse hd (payload ++ rest) ≡ result)
    → ArrivesAs (pack_frame n hd payload) parse result
unfolding pack_frame
ArrivesAs-of parse n hd payload result h e reads = (
  http2_frame_header_pack hd ++ payload,
  ground (arith, length-append (http2_frame_header_pack hd) payload, length-header_pack hd),
  λ rest. receive-pack parse hd payload rest h ∙ reads rest,
)

pub Arrives-of {ℓ} :
    {A : Type ℓ} (parse : FrameHdr → List ℕ → Result A) (n : ℕ) (hd : FrameHdr) (payload : List ℕ)
    (frame : A)
    → IsHdr hd
    → length payload ≡ n
    → ((rest : List ℕ) → parse hd (payload ++ rest) ≡ ok frame)
    → Arrives (pack_frame n hd payload) parse frame
Arrives-of parse n hd payload frame = ArrivesAs-of parse n hd payload (ok frame)

-- A view of the bytes that stand at the front.
pub view-append : (xs ys : List ℕ) (n : ℕ) → n ≡ length xs → view (xs ++ ys) 0 n ≡ ok xs
view-append xs ys n e = ground (arith, length-append xs ys, take-append xs ys {n = n} e)
