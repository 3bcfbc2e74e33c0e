-- ===== src/Stream.antt =====
-- src/http2/stream.cc: the state of a stream. The back-pointer to the connection is left out, with
-- the operations that only pass their arguments on to it.
pub mod Machine
pub mod Run
pub mod Conversation
pub mod Data
use libhttp.Prelude.{
  ℕ, zero, suc, ◌%◌, ◌^◌, min, if◌then◌else◌, Bool, true, false, List, [], ◌∷◌, ◌++◌, Option, some,
  none, length, map,
}
use libhttp.Types.{end_stream, has_flag}
use libhttp.Frame.{FrameHdr, PrioritySpec}
use libhttp.Hpack.{MdelemData}
use libhttp.SliceBuffer.{
  SliceBuffer, slice_buffer_init, add_slice, get_buffer_length, copy_to_buffer, move_header, front,
}
use mathlib.Core.Option

pub data Http2StreamState : Type 0 where
  idle reserved_local reserved_remote open_state half_closed_local half_closed_remote closed :
      Http2StreamState

-- The numbers of the states.
abbrev pub state_code : Http2StreamState → ℕ
state_code idle = 0
state_code reserved_local = 1
state_code reserved_remote = 2
state_code open_state = 3
state_code half_closed_local = 4
state_code half_closed_remote = 5
state_code closed = 6

pub data Http2StreamEvent : Type 0 where
  h_r h_s pp_r pp_s es_r es_s rst_r rst_s : Http2StreamEvent

-- `event_status_table`; `none` is kDoNotUse.
unfoldable pub get_next_status : Http2StreamEvent → Http2StreamState → Option Http2StreamState
get_next_status h_r idle = some open_state
get_next_status h_r reserved_remote = some half_closed_local
get_next_status h_s idle = some open_state
get_next_status h_s reserved_local = some half_closed_remote
get_next_status pp_r idle = some reserved_remote
get_next_status pp_s idle = some reserved_local
get_next_status es_r open_state = some half_closed_remote
get_next_status es_r half_closed_local = some closed
get_next_status es_s open_state = some half_closed_local
get_next_status es_s half_closed_remote = some closed
get_next_status rst_r reserved_local = some closed
get_next_status rst_r reserved_remote = some closed
get_next_status rst_r open_state = some closed
get_next_status rst_r half_closed_local = some closed
get_next_status rst_r half_closed_remote = some closed
get_next_status rst_s reserved_local = some closed
get_next_status rst_s reserved_remote = some closed
get_next_status rst_s open_state = some closed
get_next_status rst_s half_closed_local = some closed
get_next_status rst_s half_closed_remote = some closed
get_next_status _ _ = none

pub record Http2Stream : Type 0 where
  pub connection_id : ℕ
  pub stream_id : ℕ
  pub state : Http2StreamState
  pub frame_flags : ℕ
  pub frame_type : ℕ
  pub read_closed : Bool
  pub write_closed : Bool
  pub spec : PrioritySpec
  pub last_error : ℕ
  pub data_cache : SliceBuffer
  pub headers : List MdelemData
  pub public_headers : List (List ℕ × List ℕ)
  pub headers_dirty : Bool

unfoldable pub http2_stream : ℕ → ℕ → Http2Stream
http2_stream connection_id stream_id = record {
  connection_id = connection_id;
  stream_id = stream_id;
  state = idle;
  frame_flags = 0;
  frame_type = 0;
  read_closed = false;
  write_closed = false;
  spec = record { depend_stream_id = 0; exclusive = 0; weight = 16 };
  last_error = 0;
  data_cache = slice_buffer_init;
  headers = [];
  public_headers = [];
  headers_dirty = true;
}

-- The step that the handlers share: an event the table excludes leaves the state.
abbrev pub migrate : Http2StreamEvent → Http2Stream → Http2Stream
migrate event s = record s { state = Option.get_or (get_next_status event s.state) s.state }

unfoldable pub send_push_promise : Http2Stream → Http2Stream
send_push_promise s = migrate pp_s s

unfoldable pub recv_push_promise : Http2Stream → Http2Stream
recv_push_promise s = migrate pp_r s

unfoldable pub send_headers : Http2Stream → Http2Stream
send_headers s = migrate h_s s

unfoldable pub recv_headers : Http2Stream → List MdelemData → Http2Stream
recv_headers s headers = record (migrate h_r s) { headers = headers; headers_dirty = true }

unfoldable pub send_rst_stream : Http2Stream → Http2Stream
send_rst_stream s = migrate rst_s s

unfoldable pub recv_rst_stream : Http2Stream → ℕ → Http2Stream
recv_rst_stream s error_code = record (migrate rst_r s) { last_error = error_code }

unfoldable pub mark_unwritable : Http2Stream → Http2Stream
mark_unwritable s = record s { write_closed = true }

unfoldable pub mark_unreadable : Http2Stream → Http2Stream
mark_unreadable s = record s { read_closed = true }

unfoldable pub send_end_stream : Http2Stream → Http2Stream
unfolding mark_unwritable
send_end_stream s = mark_unwritable (migrate es_s s)

unfoldable pub recv_end_stream : Http2Stream → Http2Stream
recv_end_stream s = mark_unreadable (migrate es_r s)

unfoldable pub save_frame_info : Http2Stream → FrameHdr → Http2Stream
save_frame_info s hdr =
    let saved : Http2Stream = record s { frame_type = hdr.type; frame_flags = hdr.flags } in
    if has_flag saved.frame_flags end_stream then recv_end_stream saved else saved

unfoldable pub append_headers : Http2Stream → List MdelemData → Http2Stream
append_headers s headers = record s { headers = s.headers ++ headers; headers_dirty = true }

unfoldable pub append_data : Http2Stream → List ℕ → Http2Stream
append_data s obj = record s { data_cache = add_slice s.data_cache obj }

unfoldable pub set_priority_info : Http2Stream → PrioritySpec → Http2Stream
set_priority_info s info = record s { spec = info }

unfoldable pub data_size : Http2Stream → ℕ
data_size s = get_buffer_length s.data_cache % 2 ^ 32

-- The bytes copied and the stream after it. `none`: the assertion of `copy_to_buffer` fails.
unfoldable pub read_data : Http2Stream → ℕ → Option (List ℕ × Http2Stream)
read_data s size = elim (copy_to_buffer s.data_cache size) [
  | none ↦ none
  | some copied ↦
      some (copied, record s { data_cache = (move_header s.data_cache (length copied % 2 ^ 32)).1 })
]

unfoldable pub peek_data : Http2Stream → Option (List ℕ)
peek_data s = front s.data_cache

unfoldable pub ensure_headers_decoded : Http2Stream → Http2Stream
ensure_headers_decoded s = record s {
  public_headers = map (λ h. (h.key, h.value)) s.headers;
  headers_dirty = false;
}

unfoldable pub get_headers : Http2Stream → List (List ℕ × List ℕ) × Http2Stream
get_headers s =
    let decoded : Http2Stream = if s.headers_dirty then ensure_headers_decoded s else s in
    (decoded.public_headers, decoded)
