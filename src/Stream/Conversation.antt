-- ===== src/Stream/Conversation.antt =====
-- Two streams that are the ends of one, each receiving what the other sends.
use libhttp.Prelude.{ℕ, ◌≡◌, refl, sym, ap, ◌∙◌, List}
use libhttp.Hpack.{MdelemData}
use libhttp.Stream.{
  Http2StreamState, idle, reserved_local, reserved_remote, open_state, half_closed_local,
  half_closed_remote, closed, h_s, pp_s, es_s, rst_s, Http2Stream, http2_stream,
}
use libhttp.Stream.Machine.{peer_state, after-peer}
use libhttp.Stream.Run.{
  StreamAction, sends_push_promise, receives_push_promise, sends_headers, receives_headers,
  sends_rst_stream, receives_rst_stream, sends_end_stream, receives_end_stream, perform, event_of,
  after?, perform-state,
}

-- What one end sends, `IsRelayed` gives as what the other end receives.
pub data IsRelayed : StreamAction → StreamAction → Type 0 where
  push_promise : IsRelayed sends_push_promise receives_push_promise
  headers : (hs : List MdelemData) → IsRelayed sends_headers (receives_headers hs)
  rst_stream : (code : ℕ) → IsRelayed sends_rst_stream (receives_rst_stream code)
  end_of_stream : IsRelayed sends_end_stream receives_end_stream

-- The two ends of a stream, when each receives what the other sends before it sends itself.
pub data Conversation : Http2Stream → Http2Stream → Type 0 where
  begin : (cid cid' sid : ℕ) → Conversation (http2_stream cid sid) (http2_stream cid' sid)
  left :
      {s t : Http2Stream} (a b : StreamAction)
      → IsRelayed a b
      → Conversation s t
      → Conversation (perform a s) (perform b t)
  right :
      {s t : Http2Stream} (a b : StreamAction)
      → IsRelayed a b
      → Conversation s t
      → Conversation (perform b s) (perform a t)

peer_state-peer_state : (s : Http2StreamState) → peer_state (peer_state s) ≡ s
peer_state-peer_state idle = refl
peer_state-peer_state reserved_local = refl
peer_state-peer_state reserved_remote = refl
peer_state-peer_state open_state = refl
peer_state-peer_state half_closed_local = refl
peer_state-peer_state half_closed_remote = refl
peer_state-peer_state closed = refl

relayed-event :
    (a b : StreamAction) (s : Http2StreamState)
    → IsRelayed a b
    → after? (event_of b) (peer_state s) ≡ peer_state (after? (event_of a) s)
relayed-event _ _ s push_promise = after-peer pp_s s
relayed-event _ _ s (headers hs) = after-peer h_s s
relayed-event _ _ s (rst_stream code) = after-peer rst_s s
relayed-event _ _ s end_of_stream = after-peer es_s s

relayed-mirrored :
    (a b : StreamAction) (s t : Http2Stream)
    → IsRelayed a b
    → t.state ≡ peer_state s.state
    → (perform b t).state ≡ peer_state (perform a s).state
relayed-mirrored a b s t relayed h =
    perform-state b t
    ∙ ap (after? (event_of b)) h
    ∙ relayed-event a b s.state relayed
    ∙ ap peer_state (sym (perform-state a s))

-- The two ends of a conversation are in mirrored states throughout: one is open if the other is,
-- half closed on the local side if the other is on the remote side, and closed if the other is.
pub Conversation-mirrored : {s t : Http2Stream} → Conversation s t → t.state ≡ peer_state s.state
unfolding http2_stream
Conversation-mirrored (begin cid cid' sid) = refl
Conversation-mirrored (left {s = s} {t = t} a b relayed c) =
    relayed-mirrored a b s t relayed (Conversation-mirrored c)
Conversation-mirrored (right {s = s} {t = t} a b relayed c) =
    let back : s.state ≡ peer_state t.state =
      sym (peer_state-peer_state s.state) ∙ ap peer_state (sym (Conversation-mirrored c)) in
    sym (
      ap peer_state (relayed-mirrored a b t s relayed back)
      ∙ peer_state-peer_state (perform a t).state)
