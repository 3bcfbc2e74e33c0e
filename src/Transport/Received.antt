-- ===== src/Transport/Received.antt =====
-- `ReceivedData` of src/http2.cc keeps the streams of a connection in order.
use libhttp.Prelude.{
  ℕ, zero, suc, ◌+◌, ◌≡◌, refl, Bool, not, List, [], Option, some, none, length, drop, take,
  if◌then◌else◌, ltb,
}
use libhttp.Types.{Http2ErrorCode}
use libhttp.Slice.{slice_eq}
use libhttp.Prelude.{Result, ok, err, out_of_bounds}
use libhttp.Frame.{FrameHdr, frame_header_size, http2_frame_header_unpack}
use libhttp.Connection.{
  Connection, Env, local_max_frame_size, preface, need_verify_preface, verify_preface_done,
}
use libhttp.Connection.Output.{send_initial_settings}
use libhttp.Connection.Send.{fail_with}
use libhttp.Connection.Process.{package_process}
use libhttp.Connection.Orderly.{Orderly, Orderly-same}
use libhttp.Connection.Quiet.{Each, Each-map, either, Quiet, send_initial_settings-Quiet}
use libhttp.Connection.Handled.{fail-Orderly}
use libhttp.Connection.Dispatched.{package_process-Orderly}
use libhttp.Transport.{
  Reception, returns, fails, broken, unfinished, consume, Turn, goes_on, stops, refuses, breaks,
  turn_of, refused, receive_sized, receive_frame, receive_loop, receive_frames, received_data,
  broken_off, first_frames,
}
use libhttp.Connection.Sent.{OrderlyPair}

-- The connection that a call leaves.
abbrev pub received : Reception → Option Connection
received (returns n c) = some c
received (fails c) = some c
received broken = none
received unfinished = none

abbrev pub AllOrderly : Reception → Type 0
AllOrderly r = Each Orderly (received r)

AllOrderly-consume : (n : ℕ) (r : Reception) → AllOrderly r → AllOrderly (consume n r)
AllOrderly-consume n (returns m c) h = h
AllOrderly-consume n (fails c) h = h
AllOrderly-consume n broken h = h
AllOrderly-consume n unfinished h = h

-- The connection that a turn leaves.
abbrev OnTurn : Turn → Type 0
OnTurn (goes_on n c) = Orderly c
OnTurn stops = Unit
OnTurn (refuses c) = Orderly c
OnTurn breaks = Unit

turn_of-OnTurn : (r : Option (Option ℕ × Connection)) → Each OrderlyPair r → OnTurn (turn_of r)
turn_of-OnTurn none h = tt
turn_of-OnTurn (some (none, c)) h = h
turn_of-OnTurn (some (some n, c)) h = h

refused-OnTurn : (r : Option Connection) → Each Orderly r → OnTurn (refused r)
refused-OnTurn none h = tt
refused-OnTurn (some c) h = h

if-OnTurn : (b : Bool) (x y : Turn) → OnTurn x → OnTurn y → OnTurn (if b then x else y)
if-OnTurn b x y h k = either OnTurn b x y h k

receive_sized-OnTurn :
    (env : Env) (c : Connection) (buf : List ℕ) (r : Result FrameHdr)
    → Orderly c
    → OnTurn (receive_sized env c buf r)
unfolding receive_sized
receive_sized-OnTurn env c buf (err code) o = tt
receive_sized-OnTurn env c buf out_of_bounds o = tt
receive_sized-OnTurn env c buf (ok hdr) o =
    either OnTurn (ltb (local_max_frame_size c) hdr.length) _ _
      (refused-OnTurn (fail_with env c Http2ErrorCode.frame_size_error)
        (fail-Orderly env c _ 0 [] o))
      (either OnTurn (ltb (length buf) (hdr.length + frame_header_size)) _ _ tt (
        turn_of-OnTurn (package_process env c buf (hdr.length + frame_header_size))
          (package_process-Orderly env c buf (hdr.length + frame_header_size) o)))

receive_frame-OnTurn :
    (env : Env) (c : Connection) (buf : List ℕ) → Orderly c → OnTurn (receive_frame env c buf)
unfolding receive_frame
receive_frame-OnTurn env c buf o =
    either OnTurn (ltb (length buf) frame_header_size) _ _ tt
      (receive_sized-OnTurn env c buf (http2_frame_header_unpack buf) o)

receive_turn-Orderly :
    (env : Env) (fuel : ℕ) (c : Connection) (buf : List ℕ) (t : Turn)
    → receive_frame env c buf ≡ t
    → OnTurn t
    → Orderly c
    → ((d : Connection) (rest : List ℕ) → Orderly d → AllOrderly (receive_loop env fuel d rest))
    → AllOrderly (receive_loop env (suc fuel) c buf)
unfolding receive_loop
receive_turn-Orderly env fuel c buf (goes_on n d) e h o later =
    rw (receive_loop, e)
      (AllOrderly-consume n (receive_loop env fuel d (drop n buf)) (later d (drop n buf) h))
receive_turn-Orderly env fuel c buf stops e h o later = rw (receive_loop, e) o
receive_turn-Orderly env fuel c buf (refuses d) e h o later = rw (receive_loop, e) h
receive_turn-Orderly env fuel c buf breaks e h o later = rw (receive_loop, e) tt

receive_loop-Orderly :
    (env : Env) (fuel : ℕ) (c : Connection) (buf : List ℕ)
    → Orderly c
    → AllOrderly (receive_loop env fuel c buf)
unfolding receive_loop
receive_loop-Orderly env zero c buf o = tt
receive_loop-Orderly env (suc fuel) c buf o =
    receive_turn-Orderly env fuel c buf (receive_frame env c buf) refl
      (receive_frame-OnTurn env c buf o) o (receive_loop-Orderly env fuel)

pub received_data-Orderly :
    (env : Env) (c : Connection) (buf : List ℕ) → Orderly c → AllOrderly (received_data env c buf)
unfolding received_data verify_preface_done
received_data-Orderly env c buf o =
    either AllOrderly (not (need_verify_preface c)) _ _
      (receive_loop-Orderly env (suc (length buf)) c buf o)
      (either AllOrderly (ltb (length buf) 24) _ _ o (
        either AllOrderly (not (slice_eq (take 24 buf) preface)) _ _
          (ended (fail_with env c Http2ErrorCode.protocol_error) (fail-Orderly env c _ 0 [] o))
          (begun (send_initial_settings env (verify_preface_done c)) (
            Each-map (Quiet (verify_preface_done c)) Orderly
              (send_initial_settings env (verify_preface_done c))
              (send_initial_settings-Quiet env (verify_preface_done c))
              (λ d q. Orderly-same (verify_preface_done c) d q o)))))
  where
    ended : (r : Option Connection) → Each Orderly r → AllOrderly (broken_off r)
    ended none h = tt
    ended (some d) h = h

    begun : (r : Option Connection) → Each Orderly r → AllOrderly (first_frames env (drop 24 buf) r)
    begun none h = tt
    begun (some d) h =
        AllOrderly-consume 24 (receive_frames env d (drop 24 buf))
          (receive_loop-Orderly env (suc (length (drop 24 buf))) d (drop 24 buf) h)
