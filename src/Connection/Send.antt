-- ===== src/Connection/Send.antt =====
-- The sending operations of src/http2/connection.cc. The stream that the application passes is the one that
-- the connection has under its id. The information of a PING is its eight bytes in memory.
use libhttp.Prelude.{
  ℕ, ◌-◌, Bool, true, false, not, ◌&&◌, ◌||◌, List, [], ◌++◌, Option, some, none, length, map,
  if◌then◌else◌, ltb, ◌==◌, bit_and, bit_or,
}
use libhttp.Types.{Http2ErrorCode, error_code, flag_bits, end_headers, end_stream}
use libhttp.Frame.{SettingsEntry}
use libhttp.Frame.Build.{
  build_http2_frame_settings, build_http2_frame_ping, build_http2_frame_goaway,
  build_http2_frame_window_update, build_http2_frame_data, build_http2_frame_headers,
  build_http2_frame_push_promise, build_http2_frame_rst_stream,
}
use libhttp.Pack.{
  pack_http2_frame_settings, pack_http2_frame_ping, pack_http2_frame_goaway,
  pack_http2_frame_window_update, pack_http2_frame_data, pack_http2_frame_headers,
  pack_http2_frame_push_promise, pack_http2_frame_rst_stream,
}
use libhttp.SliceBuffer.{slice_buffer_init, merge}
use libhttp.Stream
use libhttp.Stream.{Http2Stream}
use libhttp.Hpack.{MdelemData}
use libhttp.Hpack.Compressor.{compressor_encode_headers}
use libhttp.Connection.{
  Connection, Env, WindowUpdate, FlowControlHandler, ◌>>=◌, find_stream, put_stream, create_stream,
  check_drain_complete, reap, local_setting, remote_setting,
}
use libhttp.Connection.Output.{
  send_raw_data, send_http2_frame, send_http2_frames, emit, ensure_preface_sent,
}

unfoldable pub send_ping : Env → Connection → List ℕ → Option (Bool × Connection)
send_ping env c info = do
  d ← ensure_preface_sent env c
  if d.ping_pending then some (false, d) else (do
    e ← emit env d (pack_http2_frame_ping (build_http2_frame_ping info false))
    some (true, record e { ping_pending = true }))

unfoldable pub send_settings : Env → Connection → List SettingsEntry → Option (Bool × Connection)
send_settings env c settings = do
  d ← ensure_preface_sent env c
  if (length settings == 0) || d.settings.settings_pending then some (false, d) else (do
    let asked = record d {
      settings = record (d.settings) { settings_pending = true; request_settings = settings };
    }
    e ← emit env asked (pack_http2_frame_settings (build_http2_frame_settings 0 settings))
    some (true, e))

unfoldable pub send_rst_stream : Env → Connection → ℕ → ℕ → Option (Bool × Connection)
send_rst_stream env c stream_id code = do
  d ← ensure_preface_sent env c
  elim (find_stream d.streams stream_id) [
    | none ↦ some (false, d)
    | some stream ↦ do
      e ← emit env d (pack_http2_frame_rst_stream (build_http2_frame_rst_stream stream_id 0 code))
      let reset = Stream.send_rst_stream stream
      some (true, reap (put_stream e reset) reset)
  ]

-- The last stream named in a GOAWAY that leaves it open is the last one the peer has used.
unfoldable pub send_goaway : Env → Connection → ℕ → ℕ → List ℕ → Option Connection
send_goaway env c code last_stream_id debug = do
  d ← ensure_preface_sent env c
  let last = if last_stream_id == 0 then d.last_stream_id else last_stream_id
  e ← emit env d (pack_http2_frame_goaway (build_http2_frame_goaway last code debug))
  some (record e { sent_goaway_stream_id = last; sent_goaway = true })

-- A connection error.
abbrev pub fail_with : Env → Connection → Http2ErrorCode → Option Connection
fail_with env c code = send_goaway env c (error_code code) 0 []

unfoldable pub drain : Env → Connection → Option Connection
drain env c = if c.sent_goaway then some c else (do
  d ← send_goaway env c (error_code Http2ErrorCode.no_error) c.last_stream_id []
  some (check_drain_complete (record d { draining = true })))

abbrev pub to_mdelem : List ℕ × List ℕ → MdelemData
to_mdelem h = record { key = h.0; value = h.1 }

-- The header block, and the compressor after it.
unfoldable pub encode_block :
    Env → Connection → List (List ℕ × List ℕ) → Option (List ℕ × Connection)
encode_block env c headers = do
  (output, compressor) ←
      compressor_encode_headers env.hash c.send_record (map to_mdelem headers) slice_buffer_init
        true
  block ← merge output
  some (block, record c { send_record = compressor })

-- The promise of a stream, once it is made; the null pointer is handed on.
unfoldable pub promise_stream :
    Env
    → ℕ
    → List (List ℕ × List ℕ)
    → Option Http2Stream × Connection
    → Option (Option Http2Stream × Connection)
promise_stream env request_stream_id headers (none, c) = some (none, c)
promise_stream env request_stream_id headers (some promised, c) = do
  (block, d) ← encode_block env c headers
  e ← emit env d (
      pack_http2_frame_push_promise (
        build_http2_frame_push_promise request_stream_id promised.stream_id (flag_bits end_headers)
          block))
  let reserved = Stream.send_push_promise promised
  some (some reserved, put_stream e reserved)

unfoldable pub send_push_promise :
    Env → Connection → ℕ → List (List ℕ × List ℕ) → Option (Option Http2Stream × Connection)
send_push_promise env c request_stream_id headers =
    if c.client_side || (local_setting c 2 == 0)
    then some (none, c)
    else promise_stream env request_stream_id headers (create_stream c)

-- A WINDOW_UPDATE, or nothing when there is nothing to add.
unfoldable pub window_update : ℕ → ℕ → Option (List ℕ)
window_update stream_id inc =
    if inc == 0
    then some []
    else pack_http2_frame_window_update (build_http2_frame_window_update stream_id inc)

unfoldable pub send_window_update : Env → Connection → ℕ → WindowUpdate → Option (Bool × Connection)
send_window_update env c stream_id wu = do
  d ← ensure_preface_sent env c
  let conn_inc = bit_and wu.connection_window_size_increment 0x7fffffff
  let stream_inc = bit_and wu.stream_window_size_increment 0x7fffffff
  let known : ℕ = elim (find_stream d.streams stream_id) [ none ↦ 0 | some stream ↦ stream_inc ]
  front ← window_update stream_id known
  back ← window_update 0 conn_inc
  let (ret, e) = send_raw_data env d (front ++ back)
  some (elim ret [ none ↦ false | some n ↦ not (length (front ++ back) == 0) ], e)

unfoldable pub send_binary_in_headers_frame :
    Env → Connection → ℕ → List (List ℕ × List ℕ) → ℕ → Option (Option ℕ × Connection)
send_binary_in_headers_frame env c stream_id headers flags = do
  (block, d) ← encode_block env c headers
  send_http2_frame env d
      (pack_http2_frame_headers (build_http2_frame_headers stream_id flags block none))

-- The callback before DATA, if there is one, and the update that it asks for.
unfoldable pub consult : Option FlowControlHandler → Env → Connection → ℕ → ℕ → Option Connection
consult none env c stream_id size = some c
consult (some handler) env c stream_id size = do
  (ok, d) ←
      send_window_update env c stream_id (handler.on_pre_send_data (length c.events) stream_id size)
  some d

unfoldable pub pre_send : Env → Connection → ℕ → ℕ → Option Connection
pre_send env c stream_id size =
    if size == 0 then some c else consult c.flow_control env c stream_id size

-- Without a handler the bytes have to fit the window of the connection, and come off it.
abbrev pub is_automatic : Connection → Bool
is_automatic c = elim (c.flow_control) [ none ↦ true | some handler ↦ false ]

abbrev pub exceeds_window : Connection → ℕ → Bool
exceeds_window c size = is_automatic c && (ltb 0 size && ltb c.connection_send_window size)

abbrev pub consume_window : Connection → ℕ → Connection
consume_window c size = record c {
  connection_send_window =
      if is_automatic c then c.connection_send_window - size else c.connection_send_window;
}

unfoldable pub send_binary_in_data_frame :
    Env → Connection → ℕ → List ℕ → Bool → Option (Option ℕ × Connection)
send_binary_in_data_frame env c stream_id body end_of_stream =
    if (length body == 0) && not end_of_stream
    then some (some 0, c)
    else if exceeds_window c (length body)
    then some (some 0, c)
    else (do
      d ← pre_send env (consume_window c (length body)) stream_id (length body)
      send_http2_frames env d (
          pack_http2_frame_data
            (build_http2_frame_data stream_id (if end_of_stream then flag_bits end_stream else 0)
              body)
            (remote_setting d 5)))

-- What follows the frame, when its result is not negative: the steps of the stream.
unfoldable pub conclude : Option ℕ → Connection → Http2Stream → Bool × Connection
conclude none c stream = (false, c)
conclude (some n) c stream = (true, reap (put_stream c stream) stream)

unfoldable pub stream_send_headers :
    Env → Connection → ℕ → List (List ℕ × List ℕ) → Bool → Option (Bool × Connection)
stream_send_headers env c stream_id headers ends = do
  d ← ensure_preface_sent env c
  elim (find_stream d.streams stream_id) [
    | none ↦ some (false, d)
    | some stream ↦ do
      (ret, e) ← send_binary_in_headers_frame env d stream_id headers (
          if ends
          then bit_or (flag_bits end_headers) (flag_bits end_stream)
          else flag_bits end_headers)
      let opened = Stream.send_headers stream
      some (conclude ret e (if ends then Stream.send_end_stream opened else opened))
  ]

unfoldable pub stream_send_data : Env → Connection → ℕ → List ℕ → Bool → Option (Bool × Connection)
stream_send_data env c stream_id body ends = do
  d ← ensure_preface_sent env c
  elim (find_stream d.streams stream_id) [
    | none ↦ some (false, d)
    | some stream ↦ do
      (ret, e) ← send_binary_in_data_frame env d stream_id body ends
      some (conclude ret e (if ends then Stream.send_end_stream stream else stream))
  ]

-- The result of the frame is not looked at.
unfoldable pub stream_send_trailing_headers :
    Env → Connection → ℕ → List (List ℕ × List ℕ) → Option (Bool × Connection)
stream_send_trailing_headers env c stream_id headers = do
  d ← ensure_preface_sent env c
  elim (find_stream d.streams stream_id) [
    | none ↦ some (false, d)
    | some stream ↦ do
      (ret, e) ←
          send_binary_in_headers_frame env d stream_id headers
            (bit_or (flag_bits end_headers) (flag_bits end_stream))
      some (conclude (some 0) e (Stream.send_end_stream (Stream.send_headers stream)))
  ]
