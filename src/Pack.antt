-- ===== src/Pack.antt =====
-- src/http2/pack.cc: each frame as the bytes that are sent. `none` stands for writes that do not
-- fill the allocated buffer exactly: they run over its end, or leave bytes uninitialised.
use libhttp.Prelude.{
  ℕ, zero, suc, ◌+◌, ◌-◌, ◌%◌, ◌^◌, Bool, List, [], ◌∷◌, ◌++◌, Option, none, some, length, take,
  drop, replicate, if◌then◌else◌, ltb, leb, ◌==◌, bit_and, bit_or,
}
use libhttp.Slice.{fill}
use libhttp.Types.{Http2FrameFlag, flag_bits, has_flag, clear_flag}
use libhttp.Wire.{put_uint16_in_be_stream, put_uint32_in_be_stream}
use libhttp.Frame.{
  FrameHdr, DataFrame, PrioritySpec, HeadersFrame, PriorityFrame, RstStreamFrame, SettingsEntry,
  SettingsFrame, PushPromiseFrame, PingFrame, GoawayFrame, WindowUpdateFrame, ContinuationFrame,
  frame_header_size, http2_frame_header_pack,
}

-- The header, then the payload, in a buffer of the header's size and `n` bytes more.
unfoldable pub pack_frame : ℕ → FrameHdr → List ℕ → Option (List ℕ)
unfolding fill
pack_frame n hdr payload = fill (frame_header_size + n) (http2_frame_header_pack hdr ++ payload)

-- The header of a chunk of `len` bytes, in the loop of `pack_http2_frame_data`.
unfoldable pub chunk_hdr : FrameHdr → ℕ → Bool → ℕ → FrameHdr
chunk_hdr hdr end_stream_flag is_last len = record hdr {
  length = len;
  flags =
      if is_last
      then bit_or hdr.flags end_stream_flag
      else clear_flag hdr.flags Http2FrameFlag.end_stream;
}

-- `remain_bytes`, and the length of the chunk.
unfoldable pub chunk_length : ℕ → ℕ → ℕ → ℕ
chunk_length max_frame_size size read_length =
    let remain_bytes = (size % 2 ^ 32 + 2 ^ 32 - read_length) % 2 ^ 32 in
    if ltb remain_bytes max_frame_size then remain_bytes else max_frame_size

-- `buffer.add_slice(data)`, where both the chunk and the rest could be made.
unfoldable pub cons_chunk : Option (List ℕ) → Option (List (List ℕ)) → Option (List (List ℕ))
cons_chunk (some c) (some cs) = some (c ∷ cs)
cons_chunk (some c) none = none
cons_chunk none cs = none

-- `while (read_length < frame->data.size())`: `read_length` is a `uint32_t`, which wraps around, and the
-- size a `size_t`. The fuel bounds the rounds. `none`: it ran out, or a buffer is not filled.
unfoldable pub data_chunks : ℕ → FrameHdr → ℕ → ℕ → List ℕ → ℕ → Option (List (List ℕ))
data_chunks zero hdr end_stream_flag max_frame_size body read_length =
    if ltb read_length (length body) then none else some []
data_chunks (suc fuel) hdr end_stream_flag max_frame_size body read_length =
    let len = chunk_length max_frame_size (length body) read_length in
    let after = (read_length + len) % 2 ^ 32 in
    let h = chunk_hdr hdr end_stream_flag (leb (length body) after) len in
    let rest = data_chunks fuel h end_stream_flag max_frame_size body after in
    if ltb read_length (length body)
    then cons_chunk (pack_frame h.length h (take h.length (drop read_length body))) rest
    else some []

-- One slice for an empty body; otherwise a slice for each chunk. The body's length serves as fuel: a
-- chunk takes a byte at least, if the length has 32 bits. (With more the source may go round for ever.)
unfoldable pub pack_http2_frame_data : DataFrame → ℕ → Option (List (List ℕ))
unfolding data_chunks
pack_http2_frame_data frame max_frame_size =
    let flags = clear_flag frame.hdr.flags Http2FrameFlag.padded in
    let end_stream_flag = bit_and flags (flag_bits Http2FrameFlag.end_stream) in
    let hdr = record (frame.hdr) { flags = flags } in
    if length frame.body == 0
    then cons_chunk
        (pack_frame 0 (record hdr { length = 0; flags = bit_or flags end_stream_flag }) [])
        (some [])
    else data_chunks (length frame.body) hdr end_stream_flag max_frame_size frame.body 0

-- The dependency, with the exclusive bit on top.
unfoldable pub dependency : PrioritySpec → ℕ
dependency spec =
    if spec.exclusive == 0 then spec.depend_stream_id else bit_or spec.depend_stream_id (2 ^ 31)

unfoldable pub pad_field : FrameHdr → ℕ → List ℕ
pad_field hdr pad_len = if has_flag hdr.flags Http2FrameFlag.padded then pad_len ∷ [] else []

unfoldable pub pack_http2_frame_headers : HeadersFrame → Option (List ℕ)
unfolding pad_field dependency
pack_http2_frame_headers frame = pack_frame frame.hdr.length frame.hdr (
    pad_field frame.hdr frame.pad_len
    ++ ((if has_flag frame.hdr.flags Http2FrameFlag.priority
          then put_uint32_in_be_stream (dependency frame.pspec)
            ++ (((frame.pspec.weight + 255) % 256) ∷ [])
          else [])
        ++ (frame.header_block_fragment ++ replicate frame.pad_len 0)))

unfoldable pub pack_http2_frame_priority : PriorityFrame → Option (List ℕ)
unfolding dependency
pack_http2_frame_priority frame = pack_frame 5 frame.hdr (
    put_uint32_in_be_stream (dependency frame.pspec)
    ++ ((if frame.pspec.weight == 0 then 0 else (frame.pspec.weight - 1) % 256) ∷ []))

unfoldable pub pack_http2_frame_rst_stream : RstStreamFrame → Option (List ℕ)
pack_http2_frame_rst_stream frame =
    pack_frame 4 frame.hdr (put_uint32_in_be_stream frame.error_code)

unfoldable pub settings_payload : List SettingsEntry → List ℕ
settings_payload [] = []
settings_payload (e ∷ es) =
    put_uint16_in_be_stream e.id ++ (put_uint32_in_be_stream e.value ++ settings_payload es)

unfoldable pub pack_http2_frame_settings : SettingsFrame → Option (List ℕ)
pack_http2_frame_settings frame =
    pack_frame frame.hdr.length frame.hdr (settings_payload frame.settings)

unfoldable pub pack_http2_frame_push_promise : PushPromiseFrame → Option (List ℕ)
unfolding pad_field
pack_http2_frame_push_promise frame = pack_frame frame.hdr.length frame.hdr (
    pad_field frame.hdr frame.pad_len
    ++ (put_uint32_in_be_stream frame.promised_stream_id
        ++ (frame.header_block_fragment ++ replicate frame.pad_len 0)))

-- `opaque_data` holds eight bytes.
unfoldable pub pack_http2_frame_ping : PingFrame → Option (List ℕ)
pack_http2_frame_ping frame = pack_frame 8 frame.hdr (take 8 frame.opaque_data)

unfoldable pub pack_http2_frame_goaway : GoawayFrame → Option (List ℕ)
pack_http2_frame_goaway frame = pack_frame frame.hdr.length frame.hdr (
    put_uint32_in_be_stream frame.last_stream_id
    ++ (put_uint32_in_be_stream frame.error_code ++ frame.debug_data))

unfoldable pub pack_http2_frame_window_update : WindowUpdateFrame → Option (List ℕ)
pack_http2_frame_window_update frame =
    pack_frame 4 frame.hdr (put_uint32_in_be_stream frame.window_size_inc)

unfoldable pub pack_http2_frame_continuation : ContinuationFrame → Option (List ℕ)
pack_http2_frame_continuation frame =
    pack_frame frame.hdr.length frame.hdr frame.header_block_fragment
