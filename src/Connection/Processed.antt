-- ===== src/Connection/Processed.antt =====
-- The other handlers of src/http2/connection.cc keep the streams of a connection in order.
use libhttp.Prelude.{
  ℕ, ◌+◌, ◌%◌, ◌≡◌, inl, inr, refl, ap, ◌∙◌, true, false, not, ◌||◌, List, [], ◌∷◌, some, map,
  if◌then◌else◌, Option-cases, ltb, leb, ◌==◌,
}
use libhttp.Types.{has_flag, end_headers, ack}
use libhttp.Frame.{
  PriorityFrame, RstStreamFrame, SettingsFrame, PushPromiseFrame, PingFrame, GoawayFrame,
  WindowUpdateFrame, ContinuationFrame,
}
use libhttp.Settings.{Settings, Effect}
use libhttp.Settings
use libhttp.Settings.Ranges.{received_settings-IsWithin}
use libhttp.Stream
use libhttp.Stream.{Http2Stream, http2_stream}
use libhttp.Hpack.{MdelemData}
use libhttp.Hpack.Compressor.{compressor_set_max_table_size}
use libhttp.Connection.{
  Connection, Env, notify, find_stream, put_stream, on_settings, on_ping, on_go_away, local_setting,
  on_stream_closed,
}
use libhttp.Connection.Output.{emit}
use libhttp.Connection.Receive.{
  is_idle, received_priority, received_rst_stream, perform, perform_all, received_settings, promise,
  received_push_promise, received_ping, is_refused, received_goaway, tell_flow_control,
  received_window_update, received_continuation, notify_stream_closed,
}
use libhttp.Connection.Orderly.{core, Orderly, Orderly-same, notify-core, map-IsOrderly}
use libhttp.Connection.Quiet.{
  Each, Each-bind, Each-map, Each-if, Each-any, either, Quiet, emit-Quiet, send_goaway-Quiet,
}
use libhttp.Connection.Handled.{
  save_frame_info-id, notify-Orderly, fail-Orderly, put_stream-Orderly, limit_next-Orderly,
  stream_of-Each, with_headers-Each,
}

pub received_priority-Orderly :
    (env : Env) (c : Connection) (frame : PriorityFrame)
    → Orderly c
    → Each Orderly (received_priority env c frame)
unfolding received_priority Stream.set_priority_info
received_priority-Orderly env c frame o =
    Each-if Orderly (not (frame.hdr.length == 5)) _ _ (λ e. fail-Orderly env c _ 0 [] o)
      (λ e.
        Each-if Orderly (frame.hdr.stream_id == 0) _ _ (λ e. fail-Orderly env c _ 0 [] o)
          (λ e.
            Each-if Orderly (frame.hdr.stream_id == frame.pspec.depend_stream_id) _ _
              (λ e. fail-Orderly env c _ 0 [] o)
              (λ e. stream_of-Each c frame.hdr _ _ o (λ s found.
                put_stream-Orderly c frame.hdr.stream_id s _ o found
                  (save_frame_info-id (Stream.set_priority_info s frame.pspec) frame.hdr)))))

pub received_rst_stream-Orderly :
    (env : Env) (c : Connection) (frame : RstStreamFrame)
    → Orderly c
    → Each Orderly (received_rst_stream env c frame)
unfolding received_rst_stream Stream.recv_rst_stream notify_stream_closed
received_rst_stream-Orderly env c frame o =
    Each-if Orderly (not (frame.hdr.length == 4)) _ _ (λ e. fail-Orderly env c _ 0 [] o)
      (λ e. stream_of-Each c frame.hdr _ _ (fail-Orderly env c _ 0 [] o) (λ s found.
        let reset = Stream.save_frame_info (Stream.recv_rst_stream s frame.error_code) frame.hdr in
        notify-Orderly (on_stream_closed reset.stream_id frame.error_code) (put_stream c reset) (
          put_stream-Orderly c frame.hdr.stream_id s reset o found
            (save_frame_info-id (Stream.recv_rst_stream s frame.error_code) frame.hdr))))

perform-Quiet : (env : Env) (c : Connection) (e : Effect) → Each (Quiet c) (perform env c e)
unfolding perform
perform-Quiet env c (Effect.send_goaway code) = send_goaway-Quiet env c code 0 []
perform-Quiet env c (Effect.on_settings settings is_ack) =
    notify-core (on_settings settings is_ack) c
perform-Quiet env c (Effect.compressor_set_max_table_size size) =
    Each-bind (λ r. Unit) (Quiet c) (compressor_set_max_table_size c.send_record size) _
      (Each-any _) (λ r t. refl)
perform-Quiet env c Effect.send_settings_ack = emit-Quiet env c _

perform_all-Quiet :
    (env : Env) (es : List Effect) (c : Connection) → Each (Quiet c) (perform_all env es c)
unfolding perform_all
perform_all-Quiet env [] c = refl
perform_all-Quiet env (e ∷ es) c =
    Each-bind (Quiet c) (Quiet c) (perform env c e) _ (perform-Quiet env c e) (λ d h.
      Each-map (Quiet d) (Quiet c) (perform_all env es d) (perform_all-Quiet env es d)
        (λ f k. k ∙ h))

pub received_settings-Orderly :
    (env : Env) (c : Connection) (frame : SettingsFrame)
    → Orderly c
    → Each Orderly (received_settings env c frame)
unfolding received_settings
received_settings-Orderly env c frame o =
    let after = Settings.received_settings c.settings frame in
    let stored = record c { settings = after.0 } in
    let o1 : Orderly stored = record {
      parity = o.parity;
      positive = o.positive;
      own_ids = o.own_ids;
      usable = o.usable;
      in_range = received_settings-IsWithin c.settings frame o.in_range;
    } in
    Each-map (Quiet stored) Orderly (perform_all env after.1 stored)
      (perform_all-Quiet env after.1 stored) (λ d h. Orderly-same stored d h o1)

promise-id :
    (c : Connection) (frame : PushPromiseFrame) (s : Http2Stream) (headers : List MdelemData)
    → (promise c frame s headers).stream_id ≡ s.stream_id
unfolding promise Stream.append_headers Stream.recv_push_promise
promise-id c frame s headers = save_frame_info-id (Stream.recv_push_promise s) frame.hdr

pub received_push_promise-Orderly :
    (env : Env) (c : Connection) (frame : PushPromiseFrame)
    → Orderly c
    → Each Orderly (received_push_promise env c frame)
unfolding received_push_promise
received_push_promise-Orderly env c frame o =
    let id = frame.promised_stream_id in
    Each-if Orderly (leb frame.hdr.length frame.pad_len) _ _ (λ e. fail-Orderly env c _ 0 [] o)
      (λ e.
        Each-if Orderly ((id == 0) || not (id % 2 == 0)) _ _ (λ e. fail-Orderly env c _ 0 [] o)
          (λ e.
            Each-if Orderly (local_setting c 2 == 0) _ _ (λ e. fail-Orderly env c _ 0 [] o)
              (λ e. elim (Option-cases (find_stream c.streams id)) [
                | inl absent ↦ rw absent (
                    with_headers-Each env c frame.header_block_fragment _ o (λ d headers quiet.
                      limit_next-Orderly d frame.hdr id (Orderly-same c d quiet o)))
                | inr (s, found) ↦ rw found (
                    Each-if Orderly (is_idle s) _ _
                      (λ idle.
                        with_headers-Each env c frame.header_block_fragment _ o (λ d headers quiet.
                          let od = Orderly-same c d quiet o in
                          let there : find_stream d.streams id ≡ some s =
                            ap (λ k. find_stream k.streams id) quiet ∙ found in
                          limit_next-Orderly (put_stream d (promise d frame s headers)) frame.hdr id
                            (put_stream-Orderly d id s (promise d frame s headers) od there
                              (promise-id d frame s headers))))
                      (λ busy. fail-Orderly env c _ 0 [] o))
              ])))

pub received_ping-Orderly :
    (env : Env) (c : Connection) (frame : PingFrame)
    → Orderly c
    → Each Orderly (received_ping env c frame)
unfolding received_ping
received_ping-Orderly env c frame o =
    Each-if Orderly (not (frame.hdr.length == 8)) _ _ (λ e. fail-Orderly env c _ 0 [] o)
      (λ e.
        Each-if Orderly (not (frame.hdr.stream_id == 0)) _ _ (λ e. fail-Orderly env c _ 0 [] o)
          (λ e.
            Each-if Orderly (has_flag frame.hdr.flags ack) _ _
              (λ answer.
                notify-Orderly (on_ping frame.opaque_data true) (record c { ping_pending = false })
                  o)
              (λ asked.
                let told = notify (on_ping frame.opaque_data false) c in
                Each-map (Quiet told) Orderly (emit env told _) (emit-Quiet env told _) (λ d h.
                  Orderly-same told d h (notify-Orderly (on_ping frame.opaque_data false) c o)))))

pub received_goaway-Orderly :
    (env : Env) (c : Connection) (frame : GoawayFrame)
    → Orderly c
    → Each Orderly (received_goaway env c frame)
unfolding received_goaway Stream.mark_unwritable
received_goaway-Orderly env c frame o =
    let mark : Http2Stream → Http2Stream =
      λ s. if is_refused c frame.last_stream_id s then Stream.mark_unwritable s else s in
    Each-if Orderly (not (frame.hdr.stream_id == 0)) _ _ (λ e. fail-Orderly env c _ 0 [] o)
      (λ e.
        notify-Orderly (on_go_away frame.last_stream_id frame.error_code frame.debug_data)
          (record c {
            received_goaway_stream_id = frame.last_stream_id;
            received_goaway = true;
            streams = map mark c.streams;
          })
          (map-IsOrderly mark
            (λ s.
              either (λ (u : Http2Stream). u.stream_id ≡ s.stream_id)
                (is_refused c frame.last_stream_id s) _ _ refl refl)
            (core c) o))

tell_flow_control-Quiet : (id inc : ℕ) (c : Connection) → Quiet c (tell_flow_control id inc c)
unfolding tell_flow_control
tell_flow_control-Quiet id inc c = elim (Option-cases c.flow_control) [
  | inl automatic ↦ rw automatic refl
  | inr (handler, set) ↦ rw set refl
]

pub received_window_update-Orderly :
    (env : Env) (c : Connection) (frame : WindowUpdateFrame)
    → Orderly c
    → Each Orderly (received_window_update env c frame)
unfolding received_window_update
received_window_update-Orderly env c frame o =
    let inc = frame.window_size_inc in
    Each-if Orderly (not (frame.hdr.length == 4)) _ _ (λ e. fail-Orderly env c _ 0 [] o)
      (λ e.
        Each-if Orderly (ltb inc 1 || ltb 2147483647 inc) _ _ (λ e. fail-Orderly env c _ 0 [] o)
          (λ e.
            stream_of-Each c frame.hdr _ _
              (let wider = record c { connection_send_window = c.connection_send_window + inc } in
                Orderly-same wider (tell_flow_control 0 inc wider)
                  (tell_flow_control-Quiet 0 inc wider) o)
              (λ s found.
                let saved = Stream.save_frame_info s frame.hdr in
                Orderly-same (put_stream c saved)
                  (tell_flow_control frame.hdr.stream_id inc (put_stream c saved))
                  (tell_flow_control-Quiet frame.hdr.stream_id inc (put_stream c saved))
                  (put_stream-Orderly c frame.hdr.stream_id s saved o found
                    (save_frame_info-id s frame.hdr)))))

pub received_continuation-Orderly :
    (env : Env) (c : Connection) (frame : ContinuationFrame)
    → Orderly c
    → Each Orderly (received_continuation env c frame)
unfolding received_continuation Stream.append_headers
received_continuation-Orderly env c frame o =
    Each-if Orderly (not c.next_frame_limit) _ _ (λ e. fail-Orderly env c _ 0 [] o)
      (λ e. stream_of-Each c frame.hdr _ _ (fail-Orderly env c _ 0 [] o) (λ s found.
        with_headers-Each env c frame.header_block_fragment _ o (λ d headers quiet.
          let more = Stream.save_frame_info (Stream.append_headers s headers) frame.hdr in
          let there : find_stream d.streams frame.hdr.stream_id ≡ some s =
            ap (λ k. find_stream k.streams frame.hdr.stream_id) quiet ∙ found in
          let od : Orderly (put_stream d more) =
            put_stream-Orderly d frame.hdr.stream_id s more (Orderly-same c d quiet o) there
              (save_frame_info-id (Stream.append_headers s headers) frame.hdr) in
          either Orderly (has_flag frame.hdr.flags end_headers) _ _
            (limit_next-Orderly (put_stream d more) frame.hdr more.stream_id od) od)))
