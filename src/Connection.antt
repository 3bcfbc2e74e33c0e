-- ===== src/Connection.antt =====
-- src/http2/connection.h and connection.cc: the state of a connection, what it hands to the application,
-- and its streams. `_streams` is a list in which a stream stands under its own id. Callbacks are events,
-- in the order of the calls; they do not call the connection again. What the application sends through
-- is a parameter: it is told how many calls came before, and `none` is a negative result.
pub mod Output
pub mod Send
pub mod Receive
pub mod Process
pub mod Orderly
pub mod Quiet
pub mod Handled
pub mod Processed
pub mod Dispatched
pub mod Sent
pub mod Fresh
pub mod Refusal
pub mod Framed
use libhttp.Prelude.{
  ℕ, ◌+◌, ◌-◌, ◌%◌, ◌^◌, Bool, true, false, not, ◌&&◌, ◌||◌, List, [], ◌∷◌, ◌++◌, Option, some,
  none, length, map, get_or, set, if◌then◌else◌, ltb, leb, ◌==◌,
}
use mathlib.Core.Option
use libhttp.Frame.{SettingsEntry}
use libhttp.SliceBuffer.{SliceBuffer, slice_buffer_init}
use libhttp.Settings.{Settings, global_settings_parameters}
use libhttp.Stream.{Http2Stream, http2_stream, Http2StreamState, closed}
use libhttp.Hpack.Dynamic.{DynamicTable, dynamic_table_init}
use libhttp.Hpack.Decode.{Huffman}
use libhttp.Hpack.Compressor.{Compressor, Hash, compressor_init, compressor_set_max_table_size}

infixl 5 ◌>>=◌
abbrev pub ◌>>=◌ {ℓ κ} : {A : Type ℓ} {B : Type κ} → Option A → (A → Option B) → Option B
some a >>= f = f a
none >>= f = none

-- The members of `EventHandler`, and the one of `FlowControlHandler` that has no result.
pub data Event : Type 0 where
  on_stream_headers on_stream_data : ℕ → Event
  on_stream_closed : ℕ → ℕ → Event
  on_settings : List SettingsEntry → Bool → Event
  on_ping : List ℕ → Bool → Event
  on_go_away : ℕ → ℕ → List ℕ → Event
  on_shutdown_complete : Event
  on_window_update : ℕ → ℕ → Event

pub record WindowUpdate : Type 0 where
  pub connection_window_size_increment : ℕ
  pub stream_window_size_increment : ℕ

-- The callbacks with a result, given the count of events so far, the stream and the bytes.
pub record FlowControlHandler : Type 0 where
  pub on_data_received : ℕ → ℕ → ℕ → WindowUpdate
  pub on_pre_send_data : ℕ → ℕ → ℕ → WindowUpdate

-- What stands outside: `SendRawData`, the Huffman code, and the hash of a name.
pub record Env : Type 0 where
  pub send_raw_data : ℕ → List ℕ → Option ℕ
  pub huffman : Huffman
  pub hash : Hash

pub record Connection : Type 0 where
  pub dynamic_table : DynamicTable
  pub flow_control : Option FlowControlHandler
  pub connection_id : ℕ
  pub client_side : Bool
  pub ping_pending : Bool
  pub preface_sent : Bool
  pub initial_settings_sent : Bool
  pub settings : Settings
  pub finish_handshake : Bool
  pub last_stream_id : ℕ
  pub next_local_stream_id : ℕ
  pub streams : List Http2Stream
  pub send_record : Compressor
  pub received_goaway_stream_id : ℕ
  pub received_goaway : Bool
  pub sent_goaway_stream_id : ℕ
  pub sent_goaway : Bool
  pub draining : Bool
  pub next_frame_limit : Bool
  pub next_stream_id_limit : ℕ
  pub buffered_mode : Bool
  pub send_buffer : SliceBuffer
  pub connection_send_window : ℕ
  pub sent : List (List ℕ)
  pub events : List Event

abbrev pub max_stream_id : ℕ
max_stream_id = 2147483647

abbrev pub preface : List ℕ
preface =
    0x50 ∷ 0x52 ∷ 0x49 ∷ 0x20 ∷ 0x2a ∷ 0x20 ∷ 0x48 ∷ 0x54 ∷ 0x54 ∷ 0x50 ∷ 0x2f ∷ 0x32 ∷ 0x2e ∷ 0x30
    ∷ 0x0d ∷ 0x0a ∷ 0x0d ∷ 0x0a ∷ 0x53 ∷ 0x4d ∷ 0x0d ∷ 0x0a ∷ 0x0d ∷ 0x0a ∷ []

abbrev pub default_settings : List ℕ
default_settings = map (λ p. p.default_value) global_settings_parameters

-- `compressor_init` succeeds, and the size that is set then is the one it has.
unfoldable pub http2_connection : ℕ → Bool → Connection
http2_connection cid client_side = record {
  dynamic_table = dynamic_table_init 4096;
  flow_control = none;
  connection_id = cid;
  client_side = client_side;
  ping_pending = false;
  preface_sent = false;
  initial_settings_sent = false;
  settings = record {
    local_settings = set (set (set default_settings 4 65535) 5 16384) 6 8192;
    remote_settings = default_settings;
    request_settings = [];
    settings_pending = false;
    event_handler = false;
  };
  finish_handshake = client_side;
  last_stream_id = 0;
  next_local_stream_id = if client_side then 1 else 2;
  streams = [];
  send_record = Option.get_or (compressor_set_max_table_size compressor_init 4096) compressor_init;
  received_goaway_stream_id = 0;
  received_goaway = false;
  sent_goaway_stream_id = 0;
  sent_goaway = false;
  draining = false;
  next_frame_limit = false;
  next_stream_id_limit = 0;
  buffered_mode = false;
  send_buffer = slice_buffer_init;
  connection_send_window = 65535;
  sent = [];
  events = [];
}

abbrev pub local_setting : Connection → ℕ → ℕ
local_setting c id = get_or c.settings.local_settings id 0

abbrev pub remote_setting : Connection → ℕ → ℕ
remote_setting c id = get_or c.settings.remote_settings id 0

abbrev pub local_max_frame_size : Connection → ℕ
local_max_frame_size c = local_setting c 5

-- A callback, when the handler is set.
abbrev pub notify : Event → Connection → Connection
notify e c = if c.settings.event_handler then record c { events = c.events ++ (e ∷ []) } else c

unfoldable pub find_stream : List Http2Stream → ℕ → Option Http2Stream
find_stream [] stream_id = none
find_stream (s ∷ ss) stream_id =
    let rest = find_stream ss stream_id in if s.stream_id == stream_id then some s else rest

-- `_streams.erase(stream_id)`
unfoldable pub destroy_stream : List Http2Stream → ℕ → List Http2Stream
destroy_stream [] stream_id = []
destroy_stream (s ∷ ss) stream_id =
    let rest = destroy_stream ss stream_id in if s.stream_id == stream_id then rest else s ∷ rest

-- `_streams[stream->stream_id()] = stream`, and what a change of the shared object comes to.
unfoldable pub store_stream : List Http2Stream → Http2Stream → List Http2Stream
store_stream [] stream = stream ∷ []
store_stream (s ∷ ss) stream =
    let rest = store_stream ss stream in
    if s.stream_id == stream.stream_id then stream ∷ ss else s ∷ rest

abbrev pub put_stream : Connection → Http2Stream → Connection
put_stream c stream = record c { streams = store_stream c.streams stream }

unfoldable pub is_closed : Http2Stream → Bool
is_closed s = elim (s.state) [ closed ↦ true | _ ↦ false ]

-- `none` is the null pointer.
unfoldable pub create_stream : Connection → Option Http2Stream × Connection
create_stream c =
    let stream : Http2Stream = http2_stream c.connection_id c.next_local_stream_id in
    if leb max_stream_id c.next_local_stream_id || (c.received_goaway || c.sent_goaway)
    then (none, c)
    else if not (remote_setting c 3 == 0) && leb (remote_setting c 3) (length c.streams)
    then (none, c)
    else (
      some stream,
      record c {
        streams = store_stream c.streams stream;
        next_local_stream_id = c.next_local_stream_id + 2;
      },
    )

unfoldable pub check_drain_complete : Connection → Connection
check_drain_complete c =
    if c.draining && (length c.streams == 0)
    then notify on_shutdown_complete (record c { draining = false })
    else c

-- What follows a step that may have closed the stream.
unfoldable pub reap : Connection → Http2Stream → Connection
reap c stream =
    if is_closed stream
    then check_drain_complete (record c { streams = destroy_stream c.streams stream.stream_id })
    else c

unfoldable pub set_event_handler : Connection → Bool → Connection
set_event_handler c h = record c { settings = record (c.settings) { event_handler = h } }

unfoldable pub set_flow_control_handler : Connection → Option FlowControlHandler → Connection
set_flow_control_handler c h = record c { flow_control = h }

unfoldable pub need_verify_preface : Connection → Bool
need_verify_preface c = not c.finish_handshake

unfoldable pub verify_preface_done : Connection → Connection
verify_preface_done c = record c { finish_handshake = true }

unfoldable pub set_buffered_mode : Connection → Bool → Connection
set_buffered_mode c enable = record c { buffered_mode = enable }

pub record ConnectionInfo : Type 0 where
  pub active_streams : ℕ
  pub last_stream_id : ℕ
  pub received_goaway : Bool
  pub sent_goaway : Bool
  pub draining : Bool
  pub connection_window : ℕ

unfoldable pub get_connection_info : Connection → ConnectionInfo
get_connection_info c = record {
  active_streams = length c.streams % 2 ^ 32;
  last_stream_id = c.last_stream_id;
  received_goaway = c.received_goaway;
  sent_goaway = c.sent_goaway;
  draining = c.draining;
  connection_window = c.connection_send_window;
}
