-- ===== src/Connection/Handled.antt =====
-- The handlers of src/http2/connection.cc keep the streams of a connection in order.
use libhttp.Prelude.{
  ℕ, ◌%◌, ◌^◌, ◌≡◌, inl, inr, refl, sym, ap, ◌∙◌, Bool, true, false, not, ◌&&◌, List, [], Option,
  some, none, length, if◌then◌else◌, Bool-cases, Option-cases, ltb, leb, ◌==◌, bit_and, arith,
}
use mathlib.Core.Path.{subst}
use libhttp.Prelude.Bits.{and-mask}
use libhttp.Types.{has_flag, end_stream, end_headers}
use libhttp.Frame.{FrameHdr, DataFrame, HeadersFrame}
use libhttp.Stream
use libhttp.Stream.{Http2Stream, http2_stream}
use libhttp.Hpack.{MdelemData}
use libhttp.Hpack.Decode.{Outcome, returns, overrun, unfinished, decode_headers}
use libhttp.Connection.{
  Connection, Env, Event, notify, find_stream, put_stream, is_closed, reap, check_drain_complete,
  on_shutdown_complete, on_stream_headers, on_stream_data, destroy_stream, on_stream_closed,
}
use libhttp.Connection.Send.{send_goaway, send_window_update}
use libhttp.Connection.Receive.{
  stream_of, data_update, receive_body, received_data, limit_next, with_headers, is_idle, is_remote,
  take_headers, received_headers, notify_stream_closed,
}
use libhttp.Connection.Orderly.{
  core, IsUsable, Orderly, Orderly-same, notify-core, store-IsOrderly, destroy-IsOrderly,
  find_stream-IsUsable,
}
use libhttp.Connection.Quiet.{
  Each, Each-bind, Each-map, Each-if, either, Quiet, QuietPair, send_goaway-Quiet,
  send_window_update-Quiet,
}

pub save_frame_info-id :
    (s : Http2Stream) (hdr : FrameHdr) → (Stream.save_frame_info s hdr).stream_id ≡ s.stream_id
unfolding Stream.save_frame_info Stream.recv_end_stream Stream.mark_unreadable
save_frame_info-id s hdr =
    either (λ (u : Http2Stream). u.stream_id ≡ s.stream_id) (has_flag hdr.flags end_stream) _ _ refl
      refl

pub notify-Orderly : (e : Event) (c : Connection) → Orderly c → Orderly (notify e c)
notify-Orderly e c o = Orderly-same c (notify e c) (notify-core e c) o

pub fail-Orderly :
    (env : Env) (c : Connection) (code last : ℕ) (debug : List ℕ)
    → Orderly c
    → Each Orderly (send_goaway env c code last debug)
fail-Orderly env c code last debug o =
    Each-map (Quiet c) Orderly (send_goaway env c code last debug)
      (send_goaway-Quiet env c code last debug) (λ d h. Orderly-same c d h o)

-- A change of a stream that the connection has.
pub put_stream-Orderly :
    (c : Connection) (id : ℕ) (s u : Http2Stream)
    → Orderly c
    → find_stream c.streams id ≡ some s
    → u.stream_id ≡ s.stream_id
    → Orderly (put_stream c u)
put_stream-Orderly c id s u o found same = store-IsOrderly (core c) u o (
    let usable = find_stream-IsUsable (core c) c.streams id o.usable found in
    subst (IsUsable (core c)) (sym same) usable)

stream_of-found :
    (c : Connection) (hdr : FrameHdr) (s : Http2Stream)
    → stream_of c hdr ≡ some s
    → find_stream c.streams hdr.stream_id ≡ some s
stream_of-found c hdr s h = elim (Bool-cases (hdr.stream_id == 0)) [
  | inl zero_id ↦ absurd (ground arith)
  | inr other ↦ ground arith
]

pub reap-Orderly : (c : Connection) (s : Http2Stream) → Orderly c → Orderly (reap c s)
unfolding reap check_drain_complete
reap-Orderly c s o =
    let gone = record c { streams = destroy_stream c.streams s.stream_id } in
    let ordered : Orderly gone = destroy-IsOrderly (core c) s.stream_id o in
    either Orderly (is_closed s) _ _
      (either Orderly (c.draining && (length gone.streams == 0)) _ _
        (notify-Orderly on_shutdown_complete (record gone { draining = false }) ordered) ordered)
      o

pub limit_next-Orderly :
    (c : Connection) (hdr : FrameHdr) (id : ℕ) → Orderly c → Orderly (limit_next c hdr id)
unfolding limit_next
limit_next-Orderly c hdr id o =
    either Orderly (has_flag hdr.flags end_headers) _ _
      (notify-Orderly (on_stream_headers id)
        (record c { next_frame_limit = false; next_stream_id_limit = 0 }) o)
      o

-- The stream of a frame, or none.
pub stream_of-Each :
    (c : Connection) (hdr : FrameHdr) (absent : Option Connection)
    (present : Http2Stream → Option Connection)
    → Each Orderly absent
    → ((s : Http2Stream) → find_stream c.streams hdr.stream_id ≡ some s → Each Orderly (present s))
    → Each Orderly (elim (stream_of c hdr) [ none ↦ absent | some s ↦ present s ])
stream_of-Each c hdr absent present h k = elim (Option-cases (stream_of c hdr)) [
  | inl e ↦ rw e h
  | inr (s, e) ↦ rw e (k s (stream_of-found c hdr s e))
]

with_outcome :
    (env : Env) (c : Connection) (block : List ℕ)
    (k : Connection → List MdelemData → Option Connection) (outcome : Outcome)
    → decode_headers env.huffman block c.dynamic_table ≡ outcome
    → Orderly c
    → ((d : Connection) (headers : List MdelemData) → Quiet c d → Each Orderly (k d headers))
    → Each Orderly (with_headers env c block k)
unfolding with_headers
with_outcome env c block k (returns code table headers) e o h =
    rw (with_headers, e)
      (Each-if Orderly (code == 0) _ _ (λ fine. h (record c { dynamic_table = table }) headers refl)
        (λ wrong. fail-Orderly env (record c { dynamic_table = table }) code 0 [] o))
with_outcome env c block k overrun e o h = rw (with_headers, e) tt
with_outcome env c block k unfinished e o h = rw (with_headers, e) tt

pub with_headers-Each :
    (env : Env) (c : Connection) (block : List ℕ)
    (k : Connection → List MdelemData → Option Connection)
    → Orderly c
    → ((d : Connection) (headers : List MdelemData) → Quiet c d → Each Orderly (k d headers))
    → Each Orderly (with_headers env c block k)
with_headers-Each env c block k o h =
    with_outcome env c block k (decode_headers env.huffman block c.dynamic_table) refl o h

receive_body-Orderly :
    (env : Env) (c : Connection) (s : Http2Stream) (body : List ℕ)
    → IsUsable (core c) s.stream_id
    → Orderly c
    → Each Orderly (receive_body env c s body)
unfolding receive_body Stream.append_data notify_stream_closed
receive_body-Orderly env c s body usable o =
    let filled = Stream.append_data s body in
    let told = notify (on_stream_data s.stream_id) (put_stream c filled) in
    let o1 : Orderly told =
      notify-Orderly (on_stream_data s.stream_id) (put_stream c filled)
        (store-IsOrderly (core c) filled o usable) in
    Each-bind (QuietPair told) Orderly
      (send_window_update env told s.stream_id
        (data_update told s.stream_id (length body % 2 ^ 32)))
      _ (send_window_update-Quiet env told s.stream_id _)
      (λ r h.
        let o2 : Orderly r.1 = Orderly-same told r.1 h o1 in
        either Orderly (is_closed filled) _ _
          (notify-Orderly (on_stream_closed s.stream_id 0) r.1 o2) o2)

pub received_data-Orderly :
    (env : Env) (c : Connection) (frame : DataFrame)
    → Orderly c
    → Each Orderly (received_data env c frame)
unfolding received_data
received_data-Orderly env c frame o =
    Each-if Orderly (frame.hdr.stream_id == 0) _ _ (λ e. fail-Orderly env c _ 0 [] o)
      (λ e.
        Each-if Orderly (leb frame.hdr.length frame.pad_len) _ _ (λ e. fail-Orderly env c _ 0 [] o)
          (λ e. stream_of-Each c frame.hdr _ _ o (λ s found.
            let saved = Stream.save_frame_info s frame.hdr in
            let same = save_frame_info-id s frame.hdr in
            let o1 = put_stream-Orderly c frame.hdr.stream_id s saved o found same in
            Each-if Orderly (length frame.body == 0) _ _ (λ e. o1)
              (λ e.
                receive_body-Orderly env (put_stream c saved) saved frame.body
                  (subst (IsUsable (core c)) (sym same)
                    (find_stream-IsUsable (core c) c.streams frame.hdr.stream_id o.usable found))
                  o1))))

-- An id that the peer opens streams with is none of this side's.
is_remote-IsUsable :
    (c : Connection) (id : ℕ)
    → Orderly c
    → (id == 0) ≡ false
    → is_remote c id ≡ true
    → IsUsable (core c) id
is_remote-IsUsable c id o some_id remote =
    let bit = and-mask 1 id in
    let parity = o.parity in
    elim (Bool-cases c.client_side) [
      | inl client ↦
          let even : (bit_and id 1 == 0) ≡ true = ground arith in
          let odd : c.next_local_stream_id % 2 ≡ 1 = parity ∙ ap (λ b. if b then 1 else 0) client in
          (ground arith, inl (λ e. ground arith))
      | inr server ↦
          let odd : (bit_and id 1 == 0) ≡ false = ground arith in
          let even : c.next_local_stream_id % 2 ≡ 0 =
            parity ∙ ap (λ b. if b then 1 else 0) server in
          (ground arith, inl (λ e. ground arith))
    ]

take_headers-Orderly :
    (c : Connection) (s : Http2Stream) (hdr : FrameHdr) (headers : List MdelemData)
    → IsUsable (core c) s.stream_id
    → Orderly c
    → Orderly (take_headers c s hdr headers)
unfolding take_headers Stream.recv_headers
take_headers-Orderly c s hdr headers usable o =
    let saved = Stream.save_frame_info (Stream.recv_headers s headers) hdr in
    let same : saved.stream_id ≡ s.stream_id =
      save_frame_info-id (Stream.recv_headers s headers) hdr in
    limit_next-Orderly (put_stream c saved) hdr saved.stream_id
      (store-IsOrderly (core c) saved o (subst (IsUsable (core c)) (sym same) usable))

not-false : (b : Bool) → not b ≡ false → b ≡ true
not-false true h = refl
not-false false h = absurd (cc h)

pub received_headers-Orderly :
    (env : Env) (c : Connection) (frame : HeadersFrame)
    → Orderly c
    → Each Orderly (received_headers env c frame)
unfolding received_headers http2_stream
received_headers-Orderly env c frame o =
    Each-if Orderly (frame.hdr.stream_id == 0) _ _ (λ e. fail-Orderly env c _ 0 [] o)
      (λ some_id.
        Each-if Orderly (leb frame.hdr.length frame.pad_len) _ _ (λ e. fail-Orderly env c _ 0 [] o)
          (λ e. with_headers-Each env c frame.header_block_fragment _ o (λ d headers quiet.
            let od = Orderly-same c d quiet o in
            elim (Option-cases (stream_of d frame.hdr)) [
              | inr (s, found) ↦ rw found (
                  Each-if Orderly (is_idle s) _ _
                    (λ idle.
                      take_headers-Orderly d s frame.hdr headers
                        (find_stream-IsUsable (core d) d.streams frame.hdr.stream_id od.usable
                          (stream_of-found d frame.hdr s found))
                        od)
                    (λ busy. fail-Orderly env d _ 0 [] od))
              | inl absent ↦ rw absent (
                  Each-if Orderly (not (is_remote d frame.hdr.stream_id)) _ _
                    (λ own. fail-Orderly env d _ 0 [] od)
                    (λ remote.
                      Each-if Orderly
                        (d.sent_goaway && ltb d.sent_goaway_stream_id frame.hdr.stream_id) _ _
                        (λ ignored. od)
                        (λ taken.
                          take_headers-Orderly d (http2_stream d.connection_id frame.hdr.stream_id)
                            frame.hdr headers
                            (is_remote-IsUsable d frame.hdr.stream_id od some_id
                              (not-false (is_remote d frame.hdr.stream_id) remote))
                            od)))
            ])))
