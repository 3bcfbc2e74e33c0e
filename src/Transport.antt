-- ===== src/Transport.antt =====
-- src/http2.cc: the transport, which hands its calls on to the connection, and takes the bytes of the
-- network apart into frames. Of the calls that are handed on as they stand, there is nothing here.
pub mod Loop
pub mod Pieces
pub mod Received
pub mod Runs
use libhttp.Prelude.{
  ℕ, zero, suc, ◌+◌, ◌-◌, ◌%◌, ◌^◌, Bool, true, false, not, ◌&&◌, ◌||◌, List, [], ◌∷◌, ◌++◌, Option,
  some, none, length, take, drop, if◌then◌else◌, ltb, leb, ◌==◌, Result, ok, err, out_of_bounds,
}
use libhttp.Types.{Http2ErrorCode, error_code}
use libhttp.Slice.{slice_eq}
use libhttp.Frame.{FrameHdr, frame_header_size, http2_frame_header_unpack}
use libhttp.Connection.{
  Connection, Env, WindowUpdate, ◌>>=◌, need_verify_preface, verify_preface_done, preface,
  local_max_frame_size,
}
use libhttp.Connection.Output.{send_initial_settings}
use libhttp.Connection.Send.{send_goaway, fail_with, send_window_update}
use libhttp.Connection.Process.{package_process}

-- What the loop of `ReceivedData` makes of the bytes left: the bytes consumed from here on, or none
-- of them, and the connection. `unfinished`: the fuel ran out.
pub data Reception : Type 0 where
  returns : ℕ → Connection → Reception
  fails : Connection → Reception
  broken unfinished : Reception

abbrev pub consume : ℕ → Reception → Reception
consume n (returns m c) = returns (n + m) c
consume n (fails c) = fails c
consume n broken = broken
consume n unfinished = unfinished

-- What the frame at the front comes to: the loop ends, or goes on behind it.
pub data Turn : Type 0 where
  goes_on : ℕ → Connection → Turn
  stops : Turn
  refuses : Connection → Turn
  breaks : Turn

abbrev pub turn_of : Option (Option ℕ × Connection) → Turn
turn_of none = breaks
turn_of (some (none, c)) = refuses c
turn_of (some (some n, c)) = goes_on n c

abbrev pub refused : Option Connection → Turn
refused none = breaks
refused (some c) = refuses c

-- The frame at the front, once its header is unpacked. `package_process` has the pointer into all that has
-- come; how much of it is the frame is the other argument.
unfoldable pub receive_sized : Env → Connection → List ℕ → Result FrameHdr → Turn
receive_sized env c buf (err code) = breaks
receive_sized env c buf out_of_bounds = breaks
receive_sized env c buf (ok hdr) =
    if ltb (local_max_frame_size c) hdr.length
    then refused (fail_with env c Http2ErrorCode.frame_size_error)
    else if ltb (length buf) (hdr.length + frame_header_size)
    then stops
    else turn_of (package_process env c buf (hdr.length + frame_header_size))

unfoldable pub receive_frame : Env → Connection → List ℕ → Turn
receive_frame env c buf =
    if ltb (length buf) frame_header_size
    then stops
    else receive_sized env c buf (http2_frame_header_unpack buf)

unfoldable pub receive_loop : Env → ℕ → Connection → List ℕ → Reception
receive_loop env zero c buf = unfinished
receive_loop env (suc fuel) c buf = elim (receive_frame env c buf) [
  | goes_on n d ↦ consume n (receive_loop env fuel d (drop n buf))
  | stops ↦ returns 0 c
  | refuses d ↦ fails d
  | breaks ↦ broken
]

-- A round takes nine bytes at least, so that a round more than the bytes is enough.
abbrev pub receive_frames : Env → Connection → List ℕ → Reception
receive_frames env c buf = receive_loop env (suc (length buf)) c buf

abbrev pub broken_off : Option Connection → Reception
broken_off none = broken
broken_off (some c) = fails c

-- The frames behind the preface.
abbrev pub first_frames : Env → List ℕ → Option Connection → Reception
first_frames env buf none = broken
first_frames env buf (some c) = consume 24 (receive_frames env c buf)

unfoldable pub received_data : Env → Connection → List ℕ → Reception
received_data env c buf =
    if not (need_verify_preface c)
    then receive_frames env c buf
    else if ltb (length buf) 24
    then returns 0 c
    else if not (slice_eq (take 24 buf) preface)
    then broken_off (fail_with env c Http2ErrorCode.protocol_error)
    else first_frames env (drop 24 buf) (send_initial_settings env (verify_preface_done c))

unfoldable pub shutdown : Env → Connection → Option Connection
shutdown env c = fail_with env c Http2ErrorCode.no_error

-- `SendWindowUpdate`
unfoldable pub window_update_for : ℕ → ℕ → WindowUpdate
window_update_for stream_id increment =
    if stream_id == 0
    then record { connection_window_size_increment = increment; stream_window_size_increment = 0 }
    else record { connection_window_size_increment = 0; stream_window_size_increment = increment }

unfoldable pub send_window_increment : Env → Connection → ℕ → ℕ → Option (Bool × Connection)
send_window_increment env c stream_id increment =
    send_window_update env c stream_id (window_update_for stream_id increment)
