-- ===== src/Connection/Output.antt =====
-- What src/http2/connection.cc hands to `SendRawData`, or keeps in buffered mode, and the first frames. An
-- operation returns `none` where an assertion fails or a packer does not fill its buffer; beside the
-- connection it returns the `int` of the source, with `none` for a negative one.
use libhttp.Prelude.{
  ℕ, ◌+◌, ◌%◌, ◌^◌, Bool, true, false, not, ◌||◌, List, [], ◌∷◌, ◌++◌, Option, some, none, length,
  drop, if◌then◌else◌, ltb, ◌==◌,
}
use libhttp.Frame.{SettingsEntry, SettingsFrame}
use libhttp.Frame.Build.{build_http2_frame_settings}
use libhttp.Pack.{pack_http2_frame_settings}
use libhttp.SliceBuffer.{add_slice, clear_buffer, empty}
use libhttp.Connection.{Connection, Env, ◌>>=◌, preface, default_settings}

-- A conversion to `int`.
abbrev pub to_int : ℕ → Option ℕ
to_int n = if ltb (n % 2 ^ 32) (2 ^ 31) then some (n % 2 ^ 32) else none

-- A call of the service.
abbrev pub call_service : Env → Connection → List ℕ → Option ℕ × Connection
call_service env c s = (env.send_raw_data (length c.sent) s, record c { sent = c.sent ++ (s ∷ []) })

unfoldable pub buffer_raw_data : Connection → List ℕ → Connection
buffer_raw_data c s = record c { send_buffer = add_slice c.send_buffer s }

unfoldable pub send_raw_data : Env → Connection → List ℕ → Option ℕ × Connection
send_raw_data env c s =
    if c.buffered_mode then (to_int (length s), buffer_raw_data c s) else call_service env c s

unfoldable pub buffer_slices : Connection → List (List ℕ) → Connection
buffer_slices c [] = c
buffer_slices c (s ∷ ss) = buffer_slices (buffer_raw_data c s) ss

-- The loop over the slices, with the total so far, an `int` kept by its 32 bits; it stops at a call that
-- fails. (A total that overflows is undefined in C++; here it wraps around, and may be negative.)
unfoldable pub send_slices : Env → List (List ℕ) → ℕ → Connection → Option ℕ × Connection
send_slices env [] total c = (to_int total, c)
send_slices env (s ∷ ss) total c =
    let called = call_service env c s in
    elim (called.0) [
      | none ↦ (none, called.1)
      | some ret ↦ send_slices env ss ((total + ret) % 2 ^ 32) called.1
    ]

-- The slice buffer: its slices, and the length it counts.
unfoldable pub send_raw_slices : Env → Connection → List (List ℕ) → ℕ → Option ℕ × Connection
send_raw_slices env c slices buffer_length =
    if c.buffered_mode
    then (to_int buffer_length, buffer_slices c slices)
    else send_slices env slices 0 c

-- The mode is what it was before, and the buffer is cleared if all of it was sent.
abbrev pub after_flush : Connection → Option ℕ × Connection → Bool × Connection
after_flush c (none, d) = (false, record d { buffered_mode = c.buffered_mode })
after_flush c (some total, d) =
    (true, record d { buffered_mode = c.buffered_mode; send_buffer = clear_buffer d.send_buffer })

unfoldable pub flush_buffer : Env → Connection → Bool × Connection
flush_buffer env c =
    if empty c.send_buffer
    then (true, c)
    else after_flush c (
        send_slices env (drop c.send_buffer.start c.send_buffer.vs) 0
          (record c { buffered_mode = false }))

-- `send_http2_frame`, on what the packer makes of the frame.
unfoldable pub send_http2_frame :
    Env → Connection → Option (List ℕ) → Option (Option ℕ × Connection)
send_http2_frame env c none = none
send_http2_frame env c (some s) = some (send_raw_data env c s)

abbrev pub sum_lengths : List (List ℕ) → ℕ
sum_lengths [] = 0
sum_lengths (s ∷ ss) = length s + sum_lengths ss

-- The one for DATA: the packer makes a buffer of slices.
unfoldable pub send_http2_frames :
    Env → Connection → Option (List (List ℕ)) → Option (Option ℕ × Connection)
send_http2_frames env c none = none
send_http2_frames env c (some slices) =
    some (send_raw_slices env c slices (sum_lengths slices % 2 ^ 64))

-- The connection after a frame whose result is not looked at.
unfoldable pub emit : Env → Connection → Option (List ℕ) → Option Connection
emit env c packed = do (ret, d) ← send_http2_frame env c packed; some d

-- The local settings, from `id` on, that are not the defaults.
unfoldable pub changed_settings : ℕ → List ℕ → List ℕ → List SettingsEntry
changed_settings id [] defaults = []
changed_settings id (v ∷ vs) [] = []
changed_settings id (v ∷ vs) (d ∷ ds) =
    let rest = changed_settings (id + 1) vs ds in
    if v == d then rest else record { id = id; value = v } ∷ rest

unfoldable pub initial_settings : Connection → SettingsFrame
unfolding changed_settings
initial_settings c =
    build_http2_frame_settings 0
      (changed_settings 1 (drop 1 c.settings.local_settings) (drop 1 default_settings))

abbrev pub await_settings : Connection → Connection
await_settings c = record c { settings = record (c.settings) { settings_pending = true } }

unfoldable pub ensure_preface_sent : Env → Connection → Option Connection
ensure_preface_sent env c =
    let called = call_service env c preface in
    if not c.client_side || c.preface_sent then some c else elim (called.0) [
      | none ↦ some called.1
      | some ret ↦ do
        d ← emit env called.1 (pack_http2_frame_settings (initial_settings called.1))
        some (record (await_settings d) { preface_sent = true })
    ]

unfoldable pub send_initial_settings : Env → Connection → Option Connection
send_initial_settings env c = if c.initial_settings_sent then some c else (do
  d ←
      emit env (record c { initial_settings_sent = true })
        (pack_http2_frame_settings (initial_settings c))
  some (await_settings d))
