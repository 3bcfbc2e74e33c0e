-- ===== src/Connection/Refusal.antt =====
-- `send_goaway` of src/http2/connection.cc, and the frames that `package_process` refuses with it.
use libhttp.Prelude.{
  ℕ, suc, ◌+◌, ◌^◌, ◌<◌, ◌≤◌, ◌≡◌, inl, inr, refl, ap, sym, append-nil, ◌∙◌, true, false, not, ◌||◌,
  List, [], ◌∷◌, ◌++◌, Option, some, length, length-append, drop, if◌then◌else◌, Bool-cases,
  Option-cases, ◌==◌, ok, arith,
}
use libhttp.Slice.{fill}
use libhttp.Types.{has_flag}
use libhttp.Frame.{
  FrameHdr, SettingsEntry, frame_header_size, http2_frame_header_pack, http2_frame_header_init,
}
use libhttp.Frame.Header.{length-header_pack}
use libhttp.Frame.Build.{build_http2_frame_settings, build_http2_frame_goaway}
use libhttp.Pack.{pack_frame, pack_http2_frame_settings, pack_http2_frame_goaway, settings_payload}
use libhttp.Parser.{parse_http2_frame_goaway}
use libhttp.Codec.{receive}
use libhttp.Codec.Built.{built_goaway-Arrives}
use libhttp.SliceBuffer.{slice_buffer_init, add_slice}
use libhttp.Codec.Settings.{length-settings_payload}
use libhttp.Connection.{Connection, Env, preface, default_settings}
use libhttp.Connection.Output.{
  call_service, send_raw_data, buffer_raw_data, send_http2_frame, emit, changed_settings,
  initial_settings, ensure_preface_sent, await_settings,
}
use libhttp.Connection.Send.{send_goaway}
use libhttp.Connection.Quiet.{either}

pack_frame-some :
    (n : ℕ) (hdr : FrameHdr) (payload : List ℕ)
    → length payload ≡ n
    → pack_frame n hdr payload ≡ some (http2_frame_header_pack hdr ++ payload)
unfolding pack_frame fill
pack_frame-some n hdr payload h =
    let sum = length-append (http2_frame_header_pack hdr) payload in
    let header = length-header_pack hdr in
    let exact : (length (http2_frame_header_pack hdr ++ payload) == frame_header_size + n) ≡ true =
      ground arith in
    rw exact refl

length-changed_settings : (id : ℕ) (vs ds : List ℕ) → length (changed_settings id vs ds) ≤ length ds
unfolding changed_settings
length-changed_settings id [] ds = omega arith
length-changed_settings id (v ∷ vs) [] = omega arith
length-changed_settings id (v ∷ vs) (d ∷ ds) =
    let rest = length-changed_settings (id + 1) vs ds in
    either (λ (es : List SettingsEntry). length es ≤ suc (length ds)) (v == d) _ _ (omega arith)
      (omega arith)

-- The frame of the settings is packed.
initial_settings-packed :
    (c : Connection) → (s : List ℕ) × (pack_http2_frame_settings (initial_settings c) ≡ some s)
unfolding pack_http2_frame_settings initial_settings build_http2_frame_settings
    http2_frame_header_init has_flag
initial_settings-packed c =
    let es = changed_settings 1 (drop 1 c.settings.local_settings) (drop 1 default_settings) in
    let few =
      length-changed_settings 1 (drop 1 c.settings.local_settings) (drop 1 default_settings) in
    let size = length-settings_payload es in
    (_, pack_frame-some _ _ (settings_payload es) (omega arith))

-- A connection but for what has gone out, the marks of the preface and of the settings that wait for their
-- ACK, and what is kept of a GOAWAY that was sent.
abbrev pub rest : Connection → Connection
rest c = record c {
  sent = [];
  send_buffer = slice_buffer_init;
  preface_sent = false;
  settings = record (c.settings) { settings_pending = false };
  sent_goaway = false;
  sent_goaway_stream_id = 0;
}

-- Between `c` and `d` the bytes `s` have been handed to the service or, in buffered mode, to the buffer,
-- and nothing else.
abbrev pub Handed : Connection → List ℕ → Connection → Type 0
Handed c s d =
    if c.buffered_mode
    then (d.sent ≡ c.sent) × (d.send_buffer ≡ add_slice c.send_buffer s)
    else (d.sent ≡ c.sent ++ (s ∷ [])) × (d.send_buffer ≡ c.send_buffer)

emit-Handed :
    (env : Env) (c : Connection) (packed : Option (List ℕ)) {s : List ℕ}
    → packed ≡ some s
    → (d : Connection) × (emit env c packed ≡ some d) × (rest d ≡ rest c) × Handed c s d
unfolding emit send_http2_frame send_raw_data buffer_raw_data
emit-Handed env c packed {s} h = elim (Bool-cases c.buffered_mode) [
  | inl kept ↦ ((send_raw_data env c s).1, rw h refl, rw kept refl, rw kept (refl, refl))
  | inr direct ↦ ((send_raw_data env c s).1, rw h refl, rw direct refl, rw direct (refl, refl))
]

ensure_preface_sent-rest :
    (env : Env) (c : Connection)
    → (d : Connection) × (ensure_preface_sent env c ≡ some d) × (rest d ≡ rest c)
unfolding ensure_preface_sent
ensure_preface_sent-rest env c = elim (Bool-cases (not c.client_side || c.preface_sent)) [
  | inl done ↦ (c, rw done refl, refl)
  | inr due ↦ elim (Option-cases (call_service env c preface).0) [
    | inl failed ↦ ((call_service env c preface).1, rw (due, failed) refl, refl)
    | inr (ret, sent) ↦
        let called = (call_service env c preface).1 in
        let (s, packed) = initial_settings-packed called in
        let (d, emitted, same, handed) =
          emit-Handed env called (pack_http2_frame_settings (initial_settings called)) packed in
        (record (await_settings d) { preface_sent = true }, rw (due, sent, emitted) refl, same)
  ]
]

-- A GOAWAY with this code, last stream and debug data has gone out, as the peer reads it, behind what
-- `ensure_preface_sent` sends; it is marked as sent with that stream; the rest is as before.
pub record IsRefused (env : Env) (c d : Connection) (code last : ℕ) (debug : List ℕ) : Type 0 where
  pub opened : Connection
  pub opening : ensure_preface_sent env c ≡ some opened
  pub frame : List ℕ
  pub read_as :
      receive parse_http2_frame_goaway frame ≡ ok (build_http2_frame_goaway last code debug)
  pub handed : Handed opened frame d
  pub sent_goaway : d.sent_goaway ≡ true
  pub last_stream : d.sent_goaway_stream_id ≡ last
  pub same_rest : rest d ≡ rest c

-- `send_goaway`, for a 32-bit code, ids of 31 bits and debug data that fits a frame, fails no assertion
-- and fills its buffers, whatever the service answers. The last bytes handed to the service or, in
-- buffered mode, to the buffer, behind what `ensure_preface_sent` sends, are read by the peer as a
-- GOAWAY with the code, the debug data and the stream given or, for 0, the last one of the peer; it is
-- marked as sent with that stream; and all else of the connection is as before, but for the marks that
-- the preface has been sent and that settings wait for their ACK.
pub send_goaway-IsRefused :
    (env : Env) (c : Connection) (code last : ℕ) (debug : List ℕ)
    → code < 2 ^ 32
    → last < 2 ^ 31
    → c.last_stream_id < 2 ^ 31
    → 8 + length debug < 2 ^ 24
    → (d : Connection) × (send_goaway env c code last debug ≡ some d)
      × IsRefused env c d code (if last == 0 then c.last_stream_id else last) debug
unfolding send_goaway
send_goaway-IsRefused env c code last debug hc hl hp hd =
    let (d, prefaced, first) = ensure_preface_sent-rest env c in
    let same_last : d.last_stream_id ≡ c.last_stream_id =
      ap (λ (x : Connection). x.last_stream_id) first in
    let named = if last == 0 then d.last_stream_id else last in
    let given = if last == 0 then c.last_stream_id else last in
    let agrees : named ≡ given = ap (λ (n : ℕ). if last == 0 then n else last) same_last in
    let fits : named < 2 ^ 31 = either (λ (n : ℕ). n < 2 ^ 31) (last == 0) _ _ (omega arith) hl in
    let (s, packed, arrives) = built_goaway-Arrives named code debug fits hc hd in
    let (e, emitted, second, handed) =
      emit-Handed env d (pack_http2_frame_goaway (build_http2_frame_goaway named code debug))
        packed in
    (
      record e { sent_goaway_stream_id = named; sent_goaway = true },
      rw (prefaced, emitted) refl,
      record {
        opened = d;
        opening = prefaced;
        frame = s;
        read_as =
            ap (receive parse_http2_frame_goaway) (sym (append-nil s))
            ∙ arrives []
            ∙ ap (λ (n : ℕ). ok (build_http2_frame_goaway n code debug)) agrees;
        handed = handed;
        sent_goaway = refl;
        last_stream = agrees;
        same_rest = second ∙ first;
      },
    )
