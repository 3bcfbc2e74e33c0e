-- ===== src/Stream/Machine.antt =====
-- The life of a stream (RFC 7540, section 5.1), told by its two halves: the one that this endpoint
-- writes and the one that its peer writes.
use libhttp.Prelude.{ℕ, ◌<◌, ◌≡◌, refl, ◌⊎◌, inl, inr, arith}
use libhttp.Stream.{
  Http2StreamState, idle, reserved_local, reserved_remote, open_state, half_closed_local,
  half_closed_remote, closed, Http2StreamEvent, h_r, h_s, pp_r, pp_s, es_r, es_s, rst_r, rst_s,
  get_next_status,
}
use mathlib.Core.Option

pub data Half : Type 0 where
  unused promised writing ended : Half

-- The local half, then the remote half.
abbrev pub halves : Http2StreamState → Half × Half
halves idle = (unused, unused)
halves reserved_local = (promised, ended)
halves reserved_remote = (ended, promised)
halves open_state = (writing, writing)
halves half_closed_local = (ended, writing)
halves half_closed_remote = (writing, ended)
halves closed = (ended, ended)

-- HEADERS by the endpoint of the first half: they open a stream, or a half that was promised.
abbrev pub begin : Half × Half → Half × Half
begin (unused, unused) = (writing, writing)
begin (promised, ended) = (writing, ended)
begin h = h

-- PUSH_PROMISE by the endpoint of the first half.
abbrev pub promise : Half × Half → Half × Half
promise (unused, unused) = (promised, ended)
promise h = h

-- END_STREAM by the endpoint of the first half.
abbrev pub finish : Half × Half → Half × Half
finish (writing, other) = (ended, other)
finish h = h

-- RST_STREAM by either: every stream that is in use ends.
abbrev pub abort : Half × Half → Half × Half
abort (unused, unused) = (unused, unused)
abort h = (ended, ended)

abbrev pub swap : Half × Half → Half × Half
swap h = (h.1, h.0)

abbrev pub step : Http2StreamEvent → Half × Half → Half × Half
step h_s h = begin h
step h_r h = swap (begin (swap h))
step pp_s h = promise h
step pp_r h = swap (promise (swap h))
step es_s h = finish h
step es_r h = swap (finish (swap h))
step rst_s h = abort h
step rst_r h = abort h

abbrev pub after : Http2StreamEvent → Http2StreamState → Http2StreamState
after e s = Option.get_or (get_next_status e s) s

every_state {ℓ} :
    (P : Http2StreamState → Type ℓ)
    → P idle
    → P reserved_local
    → P reserved_remote
    → P open_state
    → P half_closed_local
    → P half_closed_remote
    → P closed
    → (s : Http2StreamState) → P s
every_state P a b c d e f g idle = a
every_state P a b c d e f g reserved_local = b
every_state P a b c d e f g reserved_remote = c
every_state P a b c d e f g open_state = d
every_state P a b c d e f g half_closed_local = e
every_state P a b c d e f g half_closed_remote = f
every_state P a b c d e f g closed = g

-- On the halves, the table does what each event says: HEADERS open, PUSH_PROMISE promises and
-- END_STREAM ends the half of the endpoint that sent it, and RST_STREAM ends both.
pub get_next_status-halves :
    (e : Http2StreamEvent) (s : Http2StreamState) → halves (after e s) ≡ step e (halves s)
unfolding get_next_status
get_next_status-halves h_r =
    every_state (λ s. halves (after h_r s) ≡ step h_r (halves s)) refl refl refl refl refl refl refl
get_next_status-halves h_s =
    every_state (λ s. halves (after h_s s) ≡ step h_s (halves s)) refl refl refl refl refl refl refl
get_next_status-halves pp_r =
    every_state (λ s. halves (after pp_r s) ≡ step pp_r (halves s)) refl refl refl refl refl refl
      refl
get_next_status-halves pp_s =
    every_state (λ s. halves (after pp_s s) ≡ step pp_s (halves s)) refl refl refl refl refl refl
      refl
get_next_status-halves es_r =
    every_state (λ s. halves (after es_r s) ≡ step es_r (halves s)) refl refl refl refl refl refl
      refl
get_next_status-halves es_s =
    every_state (λ s. halves (after es_s s) ≡ step es_s (halves s)) refl refl refl refl refl refl
      refl
get_next_status-halves rst_r =
    every_state (λ s. halves (after rst_r s) ≡ step rst_r (halves s)) refl refl refl refl refl refl
      refl
get_next_status-halves rst_s =
    every_state (λ s. halves (after rst_s s) ≡ step rst_s (halves s)) refl refl refl refl refl refl
      refl

-- What the peer calls an event, and a state, of this endpoint.
abbrev pub peer_event : Http2StreamEvent → Http2StreamEvent
peer_event h_r = h_s
peer_event h_s = h_r
peer_event pp_r = pp_s
peer_event pp_s = pp_r
peer_event es_r = es_s
peer_event es_s = es_r
peer_event rst_r = rst_s
peer_event rst_s = rst_r

abbrev pub peer_state : Http2StreamState → Http2StreamState
peer_state idle = idle
peer_state reserved_local = reserved_remote
peer_state reserved_remote = reserved_local
peer_state open_state = open_state
peer_state half_closed_local = half_closed_remote
peer_state half_closed_remote = half_closed_local
peer_state closed = closed

pub after-peer :
    (e : Http2StreamEvent) (s : Http2StreamState)
    → after (peer_event e) (peer_state s) ≡ peer_state (after e s)
unfolding get_next_status
after-peer h_r =
    every_state (λ s. after (peer_event h_r) (peer_state s) ≡ peer_state (after h_r s)) refl refl
      refl refl refl refl refl
after-peer h_s =
    every_state (λ s. after (peer_event h_s) (peer_state s) ≡ peer_state (after h_s s)) refl refl
      refl refl refl refl refl
after-peer pp_r =
    every_state (λ s. after (peer_event pp_r) (peer_state s) ≡ peer_state (after pp_r s)) refl refl
      refl refl refl refl refl
after-peer pp_s =
    every_state (λ s. after (peer_event pp_s) (peer_state s) ≡ peer_state (after pp_s s)) refl refl
      refl refl refl refl refl
after-peer es_r =
    every_state (λ s. after (peer_event es_r) (peer_state s) ≡ peer_state (after es_r s)) refl refl
      refl refl refl refl refl
after-peer es_s =
    every_state (λ s. after (peer_event es_s) (peer_state s) ≡ peer_state (after es_s s)) refl refl
      refl refl refl refl refl
after-peer rst_r =
    every_state (λ s. after (peer_event rst_r) (peer_state s) ≡ peer_state (after rst_r s)) refl
      refl refl refl refl refl refl
after-peer rst_s =
    every_state (λ s. after (peer_event rst_s) (peer_state s) ≡ peer_state (after rst_s s)) refl
      refl refl refl refl refl refl

-- How far a stream has come.
abbrev pub stage : Http2StreamState → ℕ
stage idle = 0
stage reserved_local = 1
stage reserved_remote = 1
stage open_state = 1
stage half_closed_local = 2
stage half_closed_remote = 2
stage closed = 3

-- Each event leaves the state or brings the stream further.
pub after-stage :
    (e : Http2StreamEvent) (s : Http2StreamState) → (after e s ≡ s) ⊎ (stage s < stage (after e s))
unfolding get_next_status
after-stage h_r =
    every_state (λ s. (after h_r s ≡ s) ⊎ (stage s < stage (after h_r s))) (inr (omega arith))
      (inl refl) (inr (omega arith)) (inl refl) (inl refl) (inl refl) (inl refl)
after-stage h_s =
    every_state (λ s. (after h_s s ≡ s) ⊎ (stage s < stage (after h_s s))) (inr (omega arith))
      (inr (omega arith)) (inl refl) (inl refl) (inl refl) (inl refl) (inl refl)
after-stage pp_r =
    every_state (λ s. (after pp_r s ≡ s) ⊎ (stage s < stage (after pp_r s))) (inr (omega arith))
      (inl refl) (inl refl) (inl refl) (inl refl) (inl refl) (inl refl)
after-stage pp_s =
    every_state (λ s. (after pp_s s ≡ s) ⊎ (stage s < stage (after pp_s s))) (inr (omega arith))
      (inl refl) (inl refl) (inl refl) (inl refl) (inl refl) (inl refl)
after-stage es_r =
    every_state (λ s. (after es_r s ≡ s) ⊎ (stage s < stage (after es_r s))) (inl refl) (inl refl)
      (inl refl) (inr (omega arith)) (inr (omega arith)) (inl refl) (inl refl)
after-stage es_s =
    every_state (λ s. (after es_s s ≡ s) ⊎ (stage s < stage (after es_s s))) (inl refl) (inl refl)
      (inl refl) (inr (omega arith)) (inl refl) (inr (omega arith)) (inl refl)
after-stage rst_r =
    every_state (λ s. (after rst_r s ≡ s) ⊎ (stage s < stage (after rst_r s))) (inl refl)
      (inr (omega arith)) (inr (omega arith)) (inr (omega arith)) (inr (omega arith))
      (inr (omega arith)) (inl refl)
after-stage rst_s =
    every_state (λ s. (after rst_s s ≡ s) ⊎ (stage s < stage (after rst_s s))) (inl refl)
      (inr (omega arith)) (inr (omega arith)) (inr (omega arith)) (inr (omega arith))
      (inr (omega arith)) (inl refl)
