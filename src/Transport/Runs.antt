-- ===== src/Transport/Runs.antt =====
-- The calls of the transport of src/http2.cc and of its streams, in any order: what holds of every state that
-- a connection comes to.
use libhttp.Prelude.{
  ℕ, ◌≡◌, refl, sym, ◌∙◌, Bool, true, false, ◌||◌, List, Option, some, none, ◌==◌, arith,
}
use mathlib.Core.Path.{subst}
use libhttp.Frame.{SettingsEntry}
use libhttp.Settings.{global_settings_parameters}
use libhttp.Settings.Ranges.{AllWithin}
use libhttp.Stream
use libhttp.Stream.{Http2Stream, http2_stream}
use libhttp.Connection.{
  Connection, Env, WindowUpdate, FlowControlHandler, create_stream, local_setting, http2_connection,
  default_settings, set_event_handler, set_flow_control_handler, set_buffered_mode,
}
use libhttp.Connection.Output.{flush_buffer, emit}
use libhttp.Connection.Send.{
  send_ping, send_settings, send_rst_stream, send_goaway, drain, send_push_promise, promise_stream,
  send_window_update, stream_send_headers, stream_send_data, stream_send_trailing_headers,
  encode_block,
}
use libhttp.Connection.Orderly.{core, IsOrderly, IsUsable, Orderly, Orderly-same, store-IsOrderly}
use libhttp.Connection.Quiet.{
  Each, Each-bind, Each-map, Each-if, Quiet, QuietPair, emit-Quiet, send_window_update-Quiet,
  encode_block-Quiet, flush_buffer-Quiet,
}
use libhttp.Connection.Handled.{fail-Orderly}
use libhttp.Transport.{received_data}
use libhttp.Connection.Sent.{
  OrderlyPair, send_ping-Orderly, send_settings-Orderly, send_rst_stream-Orderly, drain-Orderly,
  stream_send_headers-Orderly, stream_send_data-Orderly, stream_send_trailing_headers-Orderly,
  Created, create_stream-Created,
}
use libhttp.Transport.Received.{received, received_data-Orderly}

-- The calls, with their arguments. A stream is named by its id.
pub data Operation : Type 0 where
  create : Operation
  ping : List ℕ → Operation
  settings : List SettingsEntry → Operation
  goaway : ℕ → ℕ → List ℕ → Operation
  push_promise : ℕ → List (List ℕ × List ℕ) → Operation
  window_update : ℕ → WindowUpdate → Operation
  headers trailing_headers : ℕ → List (List ℕ × List ℕ) → Operation
  headers_at_end : ℕ → List (List ℕ × List ℕ) → Operation
  body : ℕ → List ℕ → Bool → Operation
  rst_stream : ℕ → ℕ → Operation
  drains flush : Operation
  buffered : Bool → Operation
  event_handler : Bool → Operation
  flow_control_handler : Option FlowControlHandler → Operation
  receive : List ℕ → Operation

-- The connection after a call, its result left aside.
abbrev pub left {ℓ} : {A : Type ℓ} → Option (A × Connection) → Option Connection
left none = none
left (some (a, c)) = some c

abbrev pub call : Env → Operation → Connection → Option Connection
call env create c = some (create_stream c).1
call env (ping info) c = left (send_ping env c info)
call env (settings entries) c = left (send_settings env c entries)
call env (goaway code last debug) c = send_goaway env c code last debug
call env (push_promise id hs) c = left (send_push_promise env c id hs)
call env (window_update id wu) c = left (send_window_update env c id wu)
call env (headers id hs) c = left (stream_send_headers env c id hs false)
call env (headers_at_end id hs) c = left (stream_send_headers env c id hs true)
call env (trailing_headers id hs) c = left (stream_send_trailing_headers env c id hs)
call env (body id bytes ends) c = left (stream_send_data env c id bytes ends)
call env (rst_stream id code) c = left (send_rst_stream env c id code)
call env drains c = drain env c
call env flush c = some (flush_buffer env c).1
call env (buffered enable) c = some (set_buffered_mode c enable)
call env (event_handler h) c = some (set_event_handler c h)
call env (flow_control_handler h) c = some (set_flow_control_handler c h)
call env (receive bytes) c = received (received_data env c bytes)

-- The states that calls lead to.
pub data Reaches (env : Env) (c : Connection) : Connection → Type 0 where
  here : Reaches env c c
  then_call :
      {d e : Connection} (op : Operation)
      → Reaches env c d
      → call env op d ≡ some e
      → Reaches env c e

Created-Orderly : (r : Option Http2Stream × Connection) → Created r → Orderly r.1
Created-Orderly (none, c) h = h
Created-Orderly (some s, c) h = h.0

left-Orderly :
    {A : Type 0} (r : Option (A × Connection)) → Each OrderlyPair r → Each Orderly (left r)
left-Orderly none h = tt
left-Orderly (some (a, c)) h = h

default_settings-IsWithin : AllWithin global_settings_parameters default_settings
default_settings-IsWithin = (
  (omega arith, omega arith),
  (
    (omega arith, omega arith),
    (
      (omega arith, omega arith),
      (
        (omega arith, omega arith),
        (
          (omega arith, omega arith),
          ((omega arith, omega arith), ((omega arith, omega arith), tt)),
        ),
      ),
    ),
  ),
)

http2_connection-Orderly :
    (cid : ℕ) (client_side : Bool) → Orderly (http2_connection cid client_side)
unfolding http2_connection
http2_connection-Orderly cid true = record {
  parity = refl;
  positive = omega arith;
  own_ids = tt;
  usable = tt;
  in_range = default_settings-IsWithin;
}
http2_connection-Orderly cid false = record {
  parity = refl;
  positive = omega arith;
  own_ids = tt;
  usable = tt;
  in_range = default_settings-IsWithin;
}

promise_stream-Orderly :
    (env : Env) (id : ℕ) (hs : List (List ℕ × List ℕ)) (r : Option Http2Stream × Connection)
    → Created r
    → Each OrderlyPair (promise_stream env id hs r)
unfolding promise_stream Stream.send_push_promise
promise_stream-Orderly env id hs (none, c) h = h
promise_stream-Orderly env id hs (some s, c) (o, usable) =
    Each-bind (QuietPair c) OrderlyPair (encode_block env c hs) _ (encode_block-Quiet env c hs)
      (λ r q. Each-bind (Quiet r.1) OrderlyPair (emit env r.1 _) _ (emit-Quiet env r.1 _) (λ e k.
        let same : Quiet c e = k ∙ q in
        store-IsOrderly (core e) (Stream.send_push_promise s) (Orderly-same c e same o)
          (subst (λ m. IsUsable m s.stream_id) (sym same) usable)))

send_push_promise-Orderly :
    (env : Env) (c : Connection) (id : ℕ) (hs : List (List ℕ × List ℕ))
    → Orderly c
    → Each OrderlyPair (send_push_promise env c id hs)
unfolding send_push_promise
send_push_promise-Orderly env c id hs o =
    Each-if OrderlyPair (c.client_side || (local_setting c 2 == 0)) _ _ (λ refusal. o)
      (λ allowed. promise_stream-Orderly env id hs (create_stream c) (create_stream-Created c o))

call-Orderly :
    (env : Env) (op : Operation) (c : Connection) → Orderly c → Each Orderly (call env op c)
unfolding set_buffered_mode set_event_handler set_flow_control_handler
call-Orderly env create c o = Created-Orderly (create_stream c) (create_stream-Created c o)
call-Orderly env (ping info) c o =
    left-Orderly (send_ping env c info) (send_ping-Orderly env c info o)
call-Orderly env (settings entries) c o =
    left-Orderly (send_settings env c entries) (send_settings-Orderly env c entries o)
call-Orderly env (goaway code last debug) c o = fail-Orderly env c code last debug o
call-Orderly env (push_promise id hs) c o =
    left-Orderly (send_push_promise env c id hs) (send_push_promise-Orderly env c id hs o)
call-Orderly env (window_update id wu) c o = left-Orderly (send_window_update env c id wu) (
    Each-map (QuietPair c) OrderlyPair (send_window_update env c id wu)
      (send_window_update-Quiet env c id wu) (λ r q. Orderly-same c r.1 q o))
call-Orderly env (headers id hs) c o =
    left-Orderly (stream_send_headers env c id hs false)
      (stream_send_headers-Orderly env c id hs false o)
call-Orderly env (headers_at_end id hs) c o =
    left-Orderly (stream_send_headers env c id hs true)
      (stream_send_headers-Orderly env c id hs true o)
call-Orderly env (trailing_headers id hs) c o =
    left-Orderly (stream_send_trailing_headers env c id hs)
      (stream_send_trailing_headers-Orderly env c id hs o)
call-Orderly env (body id bytes ends) c o =
    left-Orderly (stream_send_data env c id bytes ends)
      (stream_send_data-Orderly env c id bytes ends o)
call-Orderly env (rst_stream id code) c o =
    left-Orderly (send_rst_stream env c id code) (send_rst_stream-Orderly env c id code o)
call-Orderly env drains c o = drain-Orderly env c o
call-Orderly env flush c o = Orderly-same c (flush_buffer env c).1 (flush_buffer-Quiet env c) o
call-Orderly env (buffered enable) c o = o
call-Orderly env (event_handler h) c o = o
call-Orderly env (flow_control_handler h) c o = o
call-Orderly env (receive bytes) c o = received_data-Orderly env c bytes o

-- In every state that calls of the transport and of its streams lead a new connection to, whatever the
-- service, the Huffman code, the hash and the bytes received: each stream stands under an id of its
-- own, which is not 0; an id of this side's parity lies below the next one, and that has this side's
-- parity (odd for a client); and each setting of the peer is in the range of its row in the table.
pub call-IsOrderly :
    (env : Env) (cid : ℕ) (client_side : Bool) (c : Connection)
    → Reaches env (http2_connection cid client_side) c
    → IsOrderly (core c)
call-IsOrderly env cid client_side c here = http2_connection-Orderly cid client_side
call-IsOrderly env cid client_side c (then_call {d} op r e) =
    subst (Each Orderly) e (call-Orderly env op d (call-IsOrderly env cid client_side d r))
