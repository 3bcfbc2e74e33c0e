-- ===== src/Connection/Receive.antt =====
-- The handlers of src/http2/connection.cc for the frames that arrive. The stream that a handler is given is
-- the one that the connection has under the id of the frame, if the id is not 0.
use libhttp.Prelude.{
  ℕ, ◌+◌, ◌%◌, ◌^◌, Bool, true, false, not, ◌&&◌, ◌||◌, List, [], ◌∷◌, ◌++◌, Option, some, none,
  length, map, if◌then◌else◌, ltb, leb, ◌==◌, bit_and,
}
use libhttp.Types.{Http2ErrorCode, ack, end_headers, has_flag}
use libhttp.Frame.{
  FrameHdr, DataFrame, HeadersFrame, PriorityFrame, RstStreamFrame, SettingsFrame, PushPromiseFrame,
  PingFrame, GoawayFrame, WindowUpdateFrame, ContinuationFrame,
}
use libhttp.Frame.Build.{build_http2_frame_settings, build_http2_frame_ping}
use libhttp.Pack.{pack_http2_frame_settings, pack_http2_frame_ping}
use libhttp.Settings.{Settings, Effect}
use libhttp.Settings
use libhttp.Stream
use libhttp.Stream.{Http2Stream, http2_stream, Http2StreamState, idle}
use libhttp.Hpack.{MdelemData}
use libhttp.Hpack.Decode.{returns, overrun, unfinished, decode_headers}
use libhttp.Hpack.Compressor.{compressor_set_max_table_size}
use libhttp.Connection.{
  Connection, Env, on_stream_headers, on_stream_data, on_stream_closed, on_settings, on_ping,
  on_go_away, on_window_update, WindowUpdate, ◌>>=◌, notify, find_stream, put_stream, is_closed,
  local_setting,
}
use libhttp.Connection.Output.{emit}
use libhttp.Connection.Send.{send_goaway, fail_with, send_window_update}

abbrev pub stream_of : Connection → FrameHdr → Option Http2Stream
stream_of c hdr = if hdr.stream_id == 0 then none else find_stream c.streams hdr.stream_id

unfoldable pub notify_stream_closed : Connection → Http2Stream → ℕ → Connection
notify_stream_closed c stream code = notify (on_stream_closed stream.stream_id code) c

-- What the flow control wants told about the bytes that came.
unfoldable pub data_update : Connection → ℕ → ℕ → WindowUpdate
data_update c stream_id size = elim (c.flow_control) [
  | none ↦ record { connection_window_size_increment = size; stream_window_size_increment = size }
  | some handler ↦ handler.on_data_received (length c.events) stream_id size
]

-- The bytes of a DATA frame that has some.
unfoldable pub receive_body : Env → Connection → Http2Stream → List ℕ → Option Connection
receive_body env c stream body = do
  let filled = Stream.append_data stream body
  let told = notify (on_stream_data filled.stream_id) (put_stream c filled)
  (ok, d) ←
      send_window_update env told filled.stream_id
        (data_update told filled.stream_id (length body % 2 ^ 32))
  some (if is_closed filled then notify_stream_closed d filled 0 else d)

unfoldable pub received_data : Env → Connection → DataFrame → Option Connection
received_data env c frame =
    if frame.hdr.stream_id == 0
    then fail_with env c Http2ErrorCode.protocol_error
    else if leb frame.hdr.length frame.pad_len
    then fail_with env c Http2ErrorCode.protocol_error
    else elim (stream_of c frame.hdr) [
      | none ↦ some c
      | some stream ↦
          let saved = Stream.save_frame_info stream frame.hdr in
          if length frame.body == 0
          then some (put_stream c saved)
          else receive_body env (put_stream c saved) saved frame.body
    ]

-- The limit on the next frame, once a header block has begun, or is complete.
unfoldable pub limit_next : Connection → FrameHdr → ℕ → Connection
limit_next c hdr stream_id =
    if has_flag hdr.flags end_headers
    then notify (on_stream_headers stream_id)
        (record c { next_frame_limit = false; next_stream_id_limit = 0 })
    else record c { next_frame_limit = true; next_stream_id_limit = hdr.stream_id }

-- The fields of a block, by the table that the connection keeps; an error goes to the peer.
unfoldable pub with_headers :
    Env
    → Connection
    → List ℕ
    → (Connection → List MdelemData → Option Connection)
    → Option Connection
with_headers env c block k = elim (decode_headers env.huffman block c.dynamic_table) [
  | returns code table headers ↦
      let d = record c { dynamic_table = table } in
      if code == 0 then k d headers else send_goaway env d code 0 []
  | overrun ↦ none
  | unfinished ↦ none
]

unfoldable pub is_idle : Http2Stream → Bool
is_idle s = elim (s.state) [ idle ↦ true | _ ↦ false ]

-- Whether the peer of this side opens streams with the id.
abbrev pub is_remote : Connection → ℕ → Bool
is_remote c stream_id =
    if c.client_side then bit_and stream_id 1 == 0 else not (bit_and stream_id 1 == 0)

unfoldable pub take_headers : Connection → Http2Stream → FrameHdr → List MdelemData → Connection
take_headers c stream hdr headers =
    let saved = Stream.save_frame_info (Stream.recv_headers stream headers) hdr in
    limit_next (put_stream c saved) hdr saved.stream_id

unfoldable pub received_headers : Env → Connection → HeadersFrame → Option Connection
received_headers env c frame =
    if frame.hdr.stream_id == 0
    then fail_with env c Http2ErrorCode.protocol_error
    else if leb frame.hdr.length frame.pad_len
    then fail_with env c Http2ErrorCode.protocol_error
    else with_headers env c frame.header_block_fragment (λ d headers. elim (stream_of d frame.hdr) [
      | some stream ↦
          if is_idle stream
          then some (take_headers d stream frame.hdr headers)
          else fail_with env d Http2ErrorCode.protocol_error
      | none ↦
          if not (is_remote d frame.hdr.stream_id)
          then fail_with env d Http2ErrorCode.protocol_error
          else if d.sent_goaway && ltb d.sent_goaway_stream_id frame.hdr.stream_id
          then some d
          else some
              (take_headers d (http2_stream d.connection_id frame.hdr.stream_id) frame.hdr headers)
    ])

unfoldable pub received_priority : Env → Connection → PriorityFrame → Option Connection
received_priority env c frame =
    if not (frame.hdr.length == 5)
    then fail_with env c Http2ErrorCode.frame_size_error
    else if frame.hdr.stream_id == 0
    then fail_with env c Http2ErrorCode.protocol_error
    else if frame.hdr.stream_id == frame.pspec.depend_stream_id
    then fail_with env c Http2ErrorCode.protocol_error
    else elim (stream_of c frame.hdr) [
      | none ↦ some c
      | some stream ↦ some (
          put_stream c
            (Stream.save_frame_info (Stream.set_priority_info stream frame.pspec) frame.hdr))
    ]

unfoldable pub received_rst_stream : Env → Connection → RstStreamFrame → Option Connection
received_rst_stream env c frame =
    if not (frame.hdr.length == 4)
    then fail_with env c Http2ErrorCode.frame_size_error
    else elim (stream_of c frame.hdr) [
      | none ↦ fail_with env c Http2ErrorCode.protocol_error
      | some stream ↦
          let reset =
            Stream.save_frame_info (Stream.recv_rst_stream stream frame.error_code) frame.hdr in
          some (notify_stream_closed (put_stream c reset) reset frame.error_code)
    ]

-- What the handler of SETTINGS calls.
unfoldable pub perform : Env → Connection → Effect → Option Connection
perform env c (Effect.send_goaway code) = send_goaway env c code 0 []
perform env c (Effect.on_settings settings is_ack) = some (notify (on_settings settings is_ack) c)
perform env c (Effect.compressor_set_max_table_size size) = do
  compressor ← compressor_set_max_table_size c.send_record size
  some (record c { send_record = compressor })
perform env c Effect.send_settings_ack =
    emit env c (pack_http2_frame_settings (build_http2_frame_settings 1 []))

unfoldable pub perform_all : Env → List Effect → Connection → Option Connection
perform_all env [] c = some c
perform_all env (e ∷ es) c = do d ← perform env c e; perform_all env es d

-- The calls come between the writes to the settings, which none of them reads or changes, but for
-- `settings_pending`: the preface, sent before a GOAWAY, sets it.
unfoldable pub received_settings : Env → Connection → SettingsFrame → Option Connection
received_settings env c frame =
    let (settings, effects) = Settings.received_settings c.settings frame in
    perform_all env effects (record c { settings = settings })

-- The stream that is promised.
unfoldable pub promise : Connection → PushPromiseFrame → Http2Stream → List MdelemData → Http2Stream
promise c frame stream headers =
    Stream.append_headers (Stream.save_frame_info (Stream.recv_push_promise stream) frame.hdr)
      headers

-- A stream that the connection has already is changed; a new one is not put into the map.
unfoldable pub received_push_promise : Env → Connection → PushPromiseFrame → Option Connection
received_push_promise env c frame =
    if leb frame.hdr.length frame.pad_len
    then fail_with env c Http2ErrorCode.protocol_error
    else if (frame.promised_stream_id == 0) || not (frame.promised_stream_id % 2 == 0)
    then fail_with env c Http2ErrorCode.protocol_error
    else if local_setting c 2 == 0
    then fail_with env c Http2ErrorCode.protocol_error
    else elim (find_stream c.streams frame.promised_stream_id) [
      | none ↦
          with_headers env c frame.header_block_fragment
            (λ d headers. some (limit_next d frame.hdr frame.promised_stream_id))
      | some stream ↦
          if is_idle stream
          then with_headers env c frame.header_block_fragment (λ d headers. some (
              limit_next (put_stream d (promise d frame stream headers)) frame.hdr
                frame.promised_stream_id))
          else fail_with env c Http2ErrorCode.protocol_error
    ]

unfoldable pub received_ping : Env → Connection → PingFrame → Option Connection
received_ping env c frame =
    if not (frame.hdr.length == 8)
    then fail_with env c Http2ErrorCode.frame_size_error
    else if not (frame.hdr.stream_id == 0)
    then fail_with env c Http2ErrorCode.protocol_error
    else if has_flag frame.hdr.flags ack
    then some (notify (on_ping frame.opaque_data true) (record c { ping_pending = false }))
    else emit env (notify (on_ping frame.opaque_data false) c)
        (pack_http2_frame_ping (build_http2_frame_ping frame.opaque_data true))

-- A stream of this side above the last one that the peer handles.
abbrev pub is_refused : Connection → ℕ → Http2Stream → Bool
is_refused c last s =
    (if c.client_side then not (bit_and s.stream_id 1 == 0) else s.stream_id % 2 == 0)
    && ltb last s.stream_id

unfoldable pub received_goaway : Env → Connection → GoawayFrame → Option Connection
received_goaway env c frame =
    if not (frame.hdr.stream_id == 0)
    then fail_with env c Http2ErrorCode.protocol_error
    else some (
        notify (on_go_away frame.last_stream_id frame.error_code frame.debug_data) (record c {
          received_goaway_stream_id = frame.last_stream_id;
          received_goaway = true;
          streams =
              map (λ s. if is_refused c frame.last_stream_id s then Stream.mark_unwritable s else s)
                c.streams;
        }))

-- The callback of the flow control.
unfoldable pub tell_flow_control : ℕ → ℕ → Connection → Connection
tell_flow_control stream_id inc c = elim (c.flow_control) [
  | none ↦ c
  | some handler ↦ record c { events = c.events ++ (on_window_update stream_id inc ∷ []) }
]

unfoldable pub received_window_update : Env → Connection → WindowUpdateFrame → Option Connection
received_window_update env c frame =
    if not (frame.hdr.length == 4)
    then fail_with env c Http2ErrorCode.frame_size_error
    else if ltb frame.window_size_inc 1 || ltb 2147483647 frame.window_size_inc
    then fail_with env c Http2ErrorCode.protocol_error
    else elim (stream_of c frame.hdr) [
      | none ↦ some (
          tell_flow_control 0 frame.window_size_inc (record c {
            connection_send_window = c.connection_send_window + frame.window_size_inc;
          }))
      | some stream ↦ some (
          tell_flow_control frame.hdr.stream_id frame.window_size_inc
            (put_stream c (Stream.save_frame_info stream frame.hdr)))
    ]

unfoldable pub received_continuation : Env → Connection → ContinuationFrame → Option Connection
received_continuation env c frame =
    if not c.next_frame_limit
    then fail_with env c Http2ErrorCode.protocol_error
    else elim (stream_of c frame.hdr) [
      | none ↦ fail_with env c Http2ErrorCode.protocol_error
      | some stream ↦ with_headers env c frame.header_block_fragment (λ d headers.
          let more = Stream.save_frame_info (Stream.append_headers stream headers) frame.hdr in
          some (
            if has_flag frame.hdr.flags end_headers
            then limit_next (put_stream d more) frame.hdr more.stream_id
            else put_stream d more))
    ]
