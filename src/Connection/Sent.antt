-- ===== src/Connection/Sent.antt =====
-- The sending operations of src/http2/connection.cc keep the streams of a connection in order.
use libhttp.Prelude.{
  ℕ, ◌+◌, ◌≡◌, inl, inr, refl, ap, ◌∙◌, Bool, true, false, not, ◌&&◌, ◌||◌, List, [], Option, some,
  none, length, All-map, Option-cases, leb, ◌==◌, arith,
}
use libhttp.Frame.{SettingsEntry}
use libhttp.Stream
use libhttp.Stream.{Http2Stream, http2_stream}
use libhttp.Connection.{
  Connection, Env, ◌>>=◌, find_stream, put_stream, create_stream, check_drain_complete, reap,
  remote_setting, max_stream_id, on_shutdown_complete,
}
use libhttp.Connection.Output.{ensure_preface_sent, emit}
use libhttp.Connection.Send.{
  send_ping, send_settings, send_rst_stream, send_goaway, drain, stream_send_headers,
  stream_send_data, stream_send_trailing_headers, conclude, send_binary_in_headers_frame,
  send_binary_in_data_frame,
}
use libhttp.Connection.Orderly.{
  core, Core, IsOrderly, IsUsable, Orderly, Orderly-same, store-IsOrderly,
}
use libhttp.Connection.Quiet.{
  Each, Each-bind, Each-if, either, Quiet, QuietPair, emit-Quiet, ensure_preface_sent-Quiet,
  send_binary_in_headers_frame-Quiet, send_binary_in_data_frame-Quiet,
}
use libhttp.Connection.Handled.{fail-Orderly, notify-Orderly, put_stream-Orderly, reap-Orderly}

abbrev pub OrderlyPair {ℓ} : {A : Type ℓ} → A × Connection → Type 0
OrderlyPair r = Orderly r.1

module _ (env : Env) where
  -- An operation that begins with the preface.
  after_preface :
      {A : Type 0} (c : Connection) (f : Connection → Option (A × Connection))
      → Orderly c
      → ((d : Connection) → Orderly d → Each (OrderlyPair {A = A}) (f d))
      → Each (OrderlyPair {A = A}) (ensure_preface_sent env c >>= f)
  after_preface {A} c f o h =
      Each-bind (Quiet c) (OrderlyPair {A = A}) (ensure_preface_sent env c) f
        (ensure_preface_sent-Quiet env c) (λ d q. h d (Orderly-same c d q o))

  after_frame :
      {A : Type 0} (c : Connection) (packed : Option (List ℕ))
      (f : Connection → Option (A × Connection))
      → Orderly c
      → ((d : Connection) → Quiet c d → Orderly d → Each (OrderlyPair {A = A}) (f d))
      → Each (OrderlyPair {A = A}) (emit env c packed >>= f)
  after_frame {A} c packed f o h =
      Each-bind (Quiet c) (OrderlyPair {A = A}) (emit env c packed) f (emit-Quiet env c packed)
        (λ d q. h d q (Orderly-same c d q o))

  pub send_ping-Orderly :
      (c : Connection) (info : List ℕ) → Orderly c → Each OrderlyPair (send_ping env c info)
  unfolding send_ping
  send_ping-Orderly c info o = after_preface c _ o (λ d od.
      Each-if OrderlyPair d.ping_pending _ _ (λ pending. od)
        (λ free. after_frame d _ _ od (λ e q oe. oe)))

  pub send_settings-Orderly :
      (c : Connection) (settings : List SettingsEntry)
      → Orderly c
      → Each OrderlyPair (send_settings env c settings)
  unfolding send_settings
  send_settings-Orderly c settings o = after_preface c _ o (λ d od.
      Each-if OrderlyPair ((length settings == 0) || d.settings.settings_pending) _ _
        (λ refusal. od)
        (λ free.
          after_frame
            (record d {
              settings = record (d.settings) {
                settings_pending = true;
                request_settings = settings;
              };
            })
            _ _ od (λ e q oe. oe)))

  -- A stream of the connection, after a quiet step.
  put_after :
      (c d : Connection) (id : ℕ) (s u : Http2Stream)
      → Orderly d
      → Quiet c d
      → find_stream c.streams id ≡ some s
      → u.stream_id ≡ s.stream_id
      → Orderly (reap (put_stream d u) u)
  put_after c d id s u od q found same =
      reap-Orderly (put_stream d u) u
        (put_stream-Orderly d id s u od (ap (λ k. find_stream k.streams id) q ∙ found) same)

  pub send_rst_stream-Orderly :
      (c : Connection) (id code : ℕ) → Orderly c → Each OrderlyPair (send_rst_stream env c id code)
  unfolding send_rst_stream Stream.send_rst_stream
  send_rst_stream-Orderly c id code o = after_preface c _ o (λ d od.
      elim (Option-cases (find_stream d.streams id)) [
        | inl absent ↦ rw absent od
        | inr (s, found) ↦ rw found (
            after_frame d _ _ od
              (λ e q oe. put_after d e id s (Stream.send_rst_stream s) oe q found refl))
      ])

  pub drain-Orderly : (c : Connection) → Orderly c → Each Orderly (drain env c)
  unfolding drain check_drain_complete
  drain-Orderly c o =
      Each-if Orderly c.sent_goaway _ _ (λ done. o)
        (λ due.
          Each-bind Orderly Orderly (send_goaway env c _ c.last_stream_id []) _
            (fail-Orderly env c _ c.last_stream_id [] o)
            (λ d od.
              either Orderly (true && (length d.streams == 0)) _ _
                (notify-Orderly on_shutdown_complete (record d { draining = false }) od) od))

  conclude-Orderly :
      (ret : Option ℕ) (c d : Connection) (id : ℕ) (s u : Http2Stream)
      → Orderly d
      → Quiet c d
      → find_stream c.streams id ≡ some s
      → u.stream_id ≡ s.stream_id
      → OrderlyPair (conclude ret d u)
  unfolding conclude
  conclude-Orderly none c d id s u od q found same = od
  conclude-Orderly (some n) c d id s u od q found same = put_after c d id s u od q found same

  pub stream_send_headers-Orderly :
      (c : Connection) (id : ℕ) (headers : List (List ℕ × List ℕ)) (ends : Bool)
      → Orderly c
      → Each OrderlyPair (stream_send_headers env c id headers ends)
  unfolding stream_send_headers Stream.send_headers Stream.send_end_stream Stream.mark_unwritable
  stream_send_headers-Orderly c id headers ends o = after_preface c _ o (λ d od.
      elim (Option-cases (find_stream d.streams id)) [
        | inl absent ↦ rw absent od
        | inr (s, found) ↦ rw found (
            Each-bind (QuietPair d) OrderlyPair (send_binary_in_headers_frame env d id headers _) _
              (send_binary_in_headers_frame-Quiet env d id headers _)
              (λ r q.
                conclude-Orderly r.0 d r.1 id s _ (Orderly-same d r.1 q od) q found
                  (either (λ (u : Http2Stream). u.stream_id ≡ s.stream_id) ends _ _ refl refl)))
      ])

  pub stream_send_data-Orderly :
      (c : Connection) (id : ℕ) (body : List ℕ) (ends : Bool)
      → Orderly c
      → Each OrderlyPair (stream_send_data env c id body ends)
  unfolding stream_send_data Stream.send_end_stream Stream.mark_unwritable
  stream_send_data-Orderly c id body ends o = after_preface c _ o (λ d od.
      elim (Option-cases (find_stream d.streams id)) [
        | inl absent ↦ rw absent od
        | inr (s, found) ↦ rw found (
            Each-bind (QuietPair d) OrderlyPair (send_binary_in_data_frame env d id body ends) _
              (send_binary_in_data_frame-Quiet env d id body ends)
              (λ r q.
                conclude-Orderly r.0 d r.1 id s _ (Orderly-same d r.1 q od) q found
                  (either (λ (u : Http2Stream). u.stream_id ≡ s.stream_id) ends _ _ refl refl)))
      ])

  pub stream_send_trailing_headers-Orderly :
      (c : Connection) (id : ℕ) (headers : List (List ℕ × List ℕ))
      → Orderly c
      → Each OrderlyPair (stream_send_trailing_headers env c id headers)
  unfolding stream_send_trailing_headers Stream.send_headers Stream.send_end_stream
      Stream.mark_unwritable conclude
  stream_send_trailing_headers-Orderly c id headers o = after_preface c _ o (λ d od.
      elim (Option-cases (find_stream d.streams id)) [
        | inl absent ↦ rw absent od
        | inr (s, found) ↦ rw found (
            Each-bind (QuietPair d) OrderlyPair (send_binary_in_headers_frame env d id headers _) _
              (send_binary_in_headers_frame-Quiet env d id headers _)
              (λ r q. put_after d r.1 id s _ (Orderly-same d r.1 q od) q found refl))
      ])

-- What `create_stream` returns stands in the map, under an id that is usable.
abbrev pub Created : Option Http2Stream × Connection → Type 0
Created (none, c) = Orderly c
Created (some s, c) = Orderly c × IsUsable (core c) s.stream_id

-- What the next id is, once one has been given out.
abbrev given_out : Core → Core
given_out k = record k { next_local_stream_id = k.next_local_stream_id + 2 }

given_out-IsOrderly : (k : Core) → IsOrderly k → IsOrderly (given_out k)
given_out-IsOrderly k o =
    let parity = o.parity in
    let positive = o.positive in
    record {
      parity = omega arith;
      positive = omega arith;
      own_ids = o.own_ids;
      usable =
          All-map (λ (s : Http2Stream). IsUsable k s.stream_id)
            (λ (s : Http2Stream). IsUsable (given_out k) s.stream_id) k.streams
            (λ s h. (
              h.0,
              elim (h.1) [ inl e ↦ inl (λ same. e (omega arith)) | inr e ↦ inr (omega arith) ],
            ))
            o.usable;
      in_range = o.in_range;
    }

pub create_stream-Created : (c : Connection) → Orderly c → Created (create_stream c)
unfolding create_stream http2_stream
create_stream-Created c o =
    let positive = o.positive in
    let stream : Http2Stream = http2_stream c.connection_id c.next_local_stream_id in
    either Created
      (leb max_stream_id c.next_local_stream_id || (c.received_goaway || c.sent_goaway)) _ _ o
      (either Created (not (remote_setting c 3 == 0) && leb (remote_setting c 3) (length c.streams))
        _ _ o
        (
          store-IsOrderly (given_out (core c)) stream (given_out-IsOrderly (core c) o)
              (positive, inr (omega arith)),
          (positive, inr (omega arith)),
        ))
