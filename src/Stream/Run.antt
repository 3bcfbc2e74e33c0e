-- ===== src/Stream/Run.antt =====
-- Runs of a stream: its operations in any order.
use libhttp.Prelude.{
  ℕ, ◌+◌, ◌<◌, ◌≤◌, ◌≡◌, refl, ap, ◌∙◌, ◌⊎◌, inl, inr, List, [], ◌∷◌, Option, some, none,
  if◌then◌else◌, Bool-cases, ◌==◌, arith,
}
use libhttp.Types.{end_stream, has_flag}
use libhttp.Frame.{FrameHdr, PrioritySpec}
use libhttp.Hpack.{MdelemData}
use libhttp.Stream.{
  Http2StreamState, idle, reserved_local, reserved_remote, open_state, half_closed_local,
  half_closed_remote, closed, state_code, Http2StreamEvent, h_r, h_s, pp_r, pp_s, es_r, es_s, rst_r,
  rst_s, get_next_status, Http2Stream, send_push_promise, recv_push_promise, send_headers,
  recv_headers, send_rst_stream, recv_rst_stream, send_end_stream, recv_end_stream, save_frame_info,
  append_headers, append_data, set_priority_info, mark_unwritable, mark_unreadable,
}
use libhttp.Stream.Machine.{Half, halves, step, after, get_next_status-halves, stage, after-stage}

pub data StreamAction : Type 0 where
  sends_push_promise receives_push_promise sends_headers : StreamAction
  receives_headers : List MdelemData → StreamAction
  sends_rst_stream : StreamAction
  receives_rst_stream : ℕ → StreamAction
  sends_end_stream receives_end_stream : StreamAction
  saves_frame_info : FrameHdr → StreamAction
  appends_headers : List MdelemData → StreamAction
  appends_data : List ℕ → StreamAction
  sets_priority : PrioritySpec → StreamAction

unfoldable pub perform : StreamAction → Http2Stream → Http2Stream
perform sends_push_promise s = send_push_promise s
perform receives_push_promise s = recv_push_promise s
perform sends_headers s = send_headers s
perform (receives_headers hs) s = recv_headers s hs
perform sends_rst_stream s = send_rst_stream s
perform (receives_rst_stream code) s = recv_rst_stream s code
perform sends_end_stream s = send_end_stream s
perform receives_end_stream s = recv_end_stream s
perform (saves_frame_info hdr) s = save_frame_info s hdr
perform (appends_headers hs) s = append_headers s hs
perform (appends_data obj) s = append_data s obj
perform (sets_priority info) s = set_priority_info s info

-- The event of the state machine that an operation stands for.
abbrev pub event_of : StreamAction → Option Http2StreamEvent
event_of sends_push_promise = some pp_s
event_of receives_push_promise = some pp_r
event_of sends_headers = some h_s
event_of (receives_headers hs) = some h_r
event_of sends_rst_stream = some rst_s
event_of (receives_rst_stream code) = some rst_r
event_of sends_end_stream = some es_s
event_of receives_end_stream = some es_r
event_of (saves_frame_info hdr) = if has_flag hdr.flags end_stream then some es_r else none
event_of (appends_headers hs) = none
event_of (appends_data obj) = none
event_of (sets_priority info) = none

abbrev pub after? : Option Http2StreamEvent → Http2StreamState → Http2StreamState
after? none s = s
after? (some e) s = after e s

pub perform-state :
    (a : StreamAction) (s : Http2Stream) → (perform a s).state ≡ after? (event_of a) s.state
unfolding perform send_push_promise recv_push_promise send_headers recv_headers send_rst_stream
    recv_rst_stream send_end_stream recv_end_stream mark_unwritable mark_unreadable save_frame_info
    append_headers append_data set_priority_info
perform-state sends_push_promise s = refl
perform-state receives_push_promise s = refl
perform-state sends_headers s = refl
perform-state (receives_headers hs) s = refl
perform-state sends_rst_stream s = refl
perform-state (receives_rst_stream code) s = refl
perform-state sends_end_stream s = refl
perform-state receives_end_stream s = refl
perform-state (saves_frame_info hdr) s = elim (Bool-cases (has_flag hdr.flags end_stream)) [
  | inl ends ↦ rw ends refl
  | inr goes_on ↦ rw goes_on refl
]
perform-state (appends_headers hs) s = refl
perform-state (appends_data obj) s = refl
perform-state (sets_priority info) s = refl

abbrev pub step? : Option Http2StreamEvent → Half × Half → Half × Half
step? none h = h
step? (some e) h = step e h

after?-halves :
    (e : Option Http2StreamEvent) (s : Http2StreamState) → halves (after? e s) ≡ step? e (halves s)
after?-halves none s = refl
after?-halves (some e) s = get_next_status-halves e s

-- Each operation of a stream moves its halves the way its event says, and an operation with no
-- event leaves them.
pub perform-halves :
    (a : StreamAction) (s : Http2Stream)
    → halves (perform a s).state ≡ step? (event_of a) (halves s.state)
perform-halves a s = ap halves (perform-state a s) ∙ after?-halves (event_of a) s.state

abbrev pub run : List StreamAction → Http2Stream → Http2Stream
run [] s = s
run (a ∷ rest) s = run rest (perform a s)

-- How often the state changes in a run.
abbrev pub changes : List StreamAction → Http2Stream → ℕ
changes [] s = 0
changes (a ∷ rest) s =
    (if state_code (perform a s).state == state_code s.state then 0 else 1)
    + changes rest (perform a s)

after?-stage :
    (e : Option Http2StreamEvent) (s : Http2StreamState)
    → (after? e s ≡ s) ⊎ (stage s < stage (after? e s))
after?-stage none s = inl refl
after?-stage (some e) s = after-stage e s

change-stage :
    (a : StreamAction) (s : Http2Stream)
    → (if state_code (perform a s).state == state_code s.state then 0 else 1) + stage s.state
      ≤ stage (perform a s).state
change-stage a s = elim (after?-stage (event_of a) s.state) [
  | inl same ↦
      let stays : (perform a s).state ≡ s.state = perform-state a s ∙ same in
      let code = ap state_code stays in let level = ap stage stays in ground arith
  | inr further ↦ let level = ap stage (perform-state a s) in ground arith
]

stage-bound : (s : Http2StreamState) → stage s ≤ 3
stage-bound idle = omega arith
stage-bound reserved_local = omega arith
stage-bound reserved_remote = omega arith
stage-bound open_state = omega arith
stage-bound half_closed_local = omega arith
stage-bound half_closed_remote = omega arith
stage-bound closed = omega arith

run-stage_grows :
    (actions : List StreamAction) (s : Http2Stream)
    → changes actions s + stage s.state ≤ stage (run actions s).state
run-stage_grows [] s = omega arith
run-stage_grows (a ∷ rest) s =
    let now = change-stage a s in let later = run-stage_grows rest (perform a s) in omega arith

-- However a stream is used, its state changes three times at most, and a run leaves it at least as
-- many stages further.
pub run-stage :
    (actions : List StreamAction) (s : Http2Stream)
    → (changes actions s ≤ 3) × (changes actions s + stage s.state ≤ stage (run actions s).state)
run-stage actions s =
    let grows = run-stage_grows actions s in
    let bound = stage-bound (run actions s).state in (omega arith, grows)

after?-closed : (e : Option Http2StreamEvent) → after? e closed ≡ closed
unfolding get_next_status
after?-closed none = refl
after?-closed (some h_r) = refl
after?-closed (some h_s) = refl
after?-closed (some pp_r) = refl
after?-closed (some pp_s) = refl
after?-closed (some es_r) = refl
after?-closed (some es_s) = refl
after?-closed (some rst_r) = refl
after?-closed (some rst_s) = refl

-- A closed stream stays closed, whatever is sent or received on it.
pub run-closed :
    (actions : List StreamAction) (s : Http2Stream)
    → s.state ≡ closed
    → (run actions s).state ≡ closed
run-closed [] s h = h
run-closed (a ∷ rest) s h =
    run-closed rest (perform a s)
      (perform-state a s ∙ ap (after? (event_of a)) h ∙ after?-closed (event_of a))
