-- ===== src/Connection/Process.antt =====
-- `package_process` of src/http2/connection.cc, with the functions of `frame_process_func_array`.
-- Beside the connection stands the `int` that is returned; `none` of that is -1.
use libhttp.Prelude.{
  ℕ, ◌+◌, Bool, true, false, not, ◌&&◌, ◌||◌, List, [], Option, some, none, drop, if◌then◌else◌,
  ltb, ◌==◌, Result, ok, err, out_of_bounds,
}
use libhttp.Types.{Http2ErrorCode}
use libhttp.Frame.{FrameHdr, frame_header_size, http2_frame_header_unpack}
use libhttp.Parser.{
  parse_http2_frame_data, parse_http2_frame_headers, parse_http2_frame_priority,
  parse_http2_frame_rst_stream, parse_http2_frame_settings, parse_http2_frame_push_promise,
  parse_http2_frame_ping, parse_http2_frame_goaway, parse_http2_frame_window_update,
  parse_http2_frame_continuation,
}
use libhttp.Connection.{Connection, Env, ◌>>=◌, reap}
use libhttp.Connection.Send.{send_goaway, fail_with}
use libhttp.Connection.Receive.{
  stream_of, is_remote, received_data, received_headers, received_priority, received_rst_stream,
  received_settings, received_push_promise, received_ping, received_goaway, received_window_update,
  received_continuation,
}

-- What the ten functions share: a payload that does not parse is a connection error. Beside the
-- connection, whether the stream is handed back.
unfoldable pub forward :
    {A : Type 0}
    → Env
    → Connection
    → Bool
    → Result A
    → (Connection → A → Option Connection)
    → Option (Bool × Connection)
forward env c hands_back (ok frame) handler = do d ← handler c frame; some (hands_back, d)
forward env c hands_back (err code) handler = do d ← send_goaway env c code 0 []; some (false, d)
forward env c hands_back out_of_bounds handler = none

-- `frame_process_func_array[hdr.type]`, for a type of 9 at most.
unfoldable pub frame_process : Env → Connection → FrameHdr → List ℕ → Option (Bool × Connection)
frame_process env c hdr payload =
    if hdr.type == 0
    then forward env c true (parse_http2_frame_data hdr payload) (received_data env)
    else if hdr.type == 1
    then forward env c true (parse_http2_frame_headers hdr payload) (received_headers env)
    else if hdr.type == 2
    then forward env c true (parse_http2_frame_priority hdr payload) (received_priority env)
    else if hdr.type == 3
    then forward env c true (parse_http2_frame_rst_stream hdr payload) (received_rst_stream env)
    else if hdr.type == 4
    then forward env c false (parse_http2_frame_settings hdr payload) (received_settings env)
    else if hdr.type == 5
    then forward env c true (parse_http2_frame_push_promise hdr payload) (received_push_promise env)
    else if hdr.type == 6
    then forward env c false (parse_http2_frame_ping hdr payload) (received_ping env)
    else if hdr.type == 7
    then forward env c false (parse_http2_frame_goaway hdr payload) (received_goaway env)
    else if hdr.type == 8
    then forward env c true (parse_http2_frame_window_update hdr payload)
        (received_window_update env)
    else forward env c true (parse_http2_frame_continuation hdr payload) (received_continuation env)

-- The stream that was handed back goes when it is closed.
unfoldable pub retire : FrameHdr → Bool × Connection → Connection
retire hdr (false, c) = c
retire hdr (true, c) = elim (stream_of c hdr) [ none ↦ c | some stream ↦ reap c stream ]

-- The highest id that the peer has used.
unfoldable pub track : Connection → FrameHdr → Connection
track c hdr =
    if not (hdr.stream_id == 0) && (is_remote c hdr.stream_id && ltb c.last_stream_id hdr.stream_id)
    then record c { last_stream_id = hdr.stream_id }
    else c

-- A frame where CONTINUATION on a stream has to come, and does not.
unfoldable pub breaks_block : Connection → FrameHdr → Bool
breaks_block c hdr =
    c.next_frame_limit && (not (hdr.type == 9) || not (hdr.stream_id == c.next_stream_id_limit))

-- A frame of a known type, or of an unknown one, for a stream that is not ignored.
unfoldable pub process_frame : Env → Connection → FrameHdr → List ℕ → Option Connection
process_frame env c hdr payload =
    if ltb 9 hdr.type
    then some c
    else (do handled ← frame_process env c hdr payload; some (retire hdr handled))

-- The frame, once its header is unpacked: `len` is the argument, and `bytes` what the buffer holds.
unfoldable pub package_frame :
    Env → Connection → List ℕ → ℕ → Result FrameHdr → Option (Option ℕ × Connection)
package_frame env c bytes len (err code) = none
package_frame env c bytes len out_of_bounds = none
package_frame env c bytes len (ok hdr) =
    if ltb len (hdr.length + frame_header_size)
    then some (none, c)
    else if breaks_block c hdr
    then (do d ← fail_with env c Http2ErrorCode.protocol_error; some (none, d))
    else if c.sent_goaway && ltb c.sent_goaway_stream_id hdr.stream_id
    then some (some (hdr.length + frame_header_size), c)
    else (do
      d ← process_frame env (track c hdr) hdr (drop frame_header_size bytes)
      some (some (hdr.length + frame_header_size), d))

-- The pointer is `bytes`, all that the buffer holds from it on, of which `len` bytes belong to the frame.
unfoldable pub package_process : Env → Connection → List ℕ → ℕ → Option (Option ℕ × Connection)
package_process env c bytes len =
    if ltb len frame_header_size
    then some (none, c)
    else package_frame env c bytes len (http2_frame_header_unpack bytes)
