-- ===== src/Connection/Dispatched.antt =====
-- `package_process` of src/http2/connection.cc keeps the streams of a connection in order.
use libhttp.Prelude.{
  ℕ, ◌+◌, inl, inr, Bool, true, false, not, ◌&&◌, List, [], Option, drop, Option-cases, ltb, ◌==◌,
}
use libhttp.Types.{Http2ErrorCode}
use libhttp.Frame.{FrameHdr}
use libhttp.Connection.{Connection, Env}
use libhttp.Connection.Send.{send_goaway, fail_with}
use libhttp.Connection.Receive.{stream_of, is_remote}
use libhttp.Connection.Orderly.{Orderly}
use libhttp.Connection.Quiet.{Each, Each-bind, Each-if, either}
use libhttp.Prelude.{Result, ok, err, out_of_bounds}
use libhttp.Frame.{frame_header_size, http2_frame_header_unpack}
use libhttp.Connection.Process.{
  forward, frame_process, retire, track, breaks_block, process_frame, package_frame,
  package_process,
}
use libhttp.Connection.Handled.{
  fail-Orderly, reap-Orderly, received_data-Orderly, received_headers-Orderly,
}
use libhttp.Connection.Processed.{
  received_priority-Orderly, received_rst_stream-Orderly, received_settings-Orderly,
  received_push_promise-Orderly, received_ping-Orderly, received_goaway-Orderly,
  received_window_update-Orderly, received_continuation-Orderly,
}

forward-Orderly :
    {A : Type 0} (env : Env) (c : Connection) (hands_back : Bool) (r : Result A)
    (handler : Connection → A → Option Connection)
    → Orderly c
    → ((frame : A) → Each Orderly (handler c frame))
    → Each (λ (s : Bool × Connection). Orderly s.1) (forward env c hands_back r handler)
unfolding forward
forward-Orderly env c hands_back (ok frame) handler o h =
    Each-bind Orderly (λ (s : Bool × Connection). Orderly s.1) (handler c frame) _ (h frame)
      (λ d od. od)
forward-Orderly env c hands_back (err code) handler o h =
    Each-bind Orderly (λ (s : Bool × Connection). Orderly s.1) (send_goaway env c code 0 []) _
      (fail-Orderly env c code 0 [] o) (λ d od. od)
forward-Orderly env c hands_back out_of_bounds handler o h = tt

frame_process-Orderly :
    (env : Env) (c : Connection) (hdr : FrameHdr) (payload : List ℕ)
    → Orderly c
    → Each (λ (s : Bool × Connection). Orderly s.1) (frame_process env c hdr payload)
unfolding frame_process
frame_process-Orderly env c hdr payload o =
    let P : Bool × Connection → Type 0 = λ s. Orderly s.1 in
    Each-if P (hdr.type == 0) _ _
      (λ t. forward-Orderly env c true _ _ o (λ f. received_data-Orderly env c f o))
      (λ t.
        Each-if P (hdr.type == 1) _ _
          (λ t. forward-Orderly env c true _ _ o (λ f. received_headers-Orderly env c f o))
          (λ t.
            Each-if P (hdr.type == 2) _ _
              (λ t. forward-Orderly env c true _ _ o (λ f. received_priority-Orderly env c f o))
              (λ t.
                Each-if P (hdr.type == 3) _ _
                  (λ t.
                    forward-Orderly env c true _ _ o (λ f. received_rst_stream-Orderly env c f o))
                  (λ t.
                    Each-if P (hdr.type == 4) _ _
                      (λ t.
                        forward-Orderly env c false _ _ o
                          (λ f. received_settings-Orderly env c f o))
                      (λ t.
                        Each-if P (hdr.type == 5) _ _
                          (λ t.
                            forward-Orderly env c true _ _ o
                              (λ f. received_push_promise-Orderly env c f o))
                          (λ t.
                            Each-if P (hdr.type == 6) _ _
                              (λ t.
                                forward-Orderly env c false _ _ o
                                  (λ f. received_ping-Orderly env c f o))
                              (λ t.
                                Each-if P (hdr.type == 7) _ _
                                  (λ t.
                                    forward-Orderly env c false _ _ o
                                      (λ f. received_goaway-Orderly env c f o))
                                  (λ t.
                                    Each-if P (hdr.type == 8) _ _
                                      (λ t.
                                        forward-Orderly env c true _ _ o
                                          (λ f. received_window_update-Orderly env c f o))
                                      (λ t.
                                        forward-Orderly env c true _ _ o
                                          (λ f. received_continuation-Orderly env c f o))))))))))

retire-Orderly :
    (hdr : FrameHdr) (b : Bool) (c : Connection) → Orderly c → Orderly (retire hdr (b, c))
unfolding retire
retire-Orderly hdr false c o = o
retire-Orderly hdr true c o = elim (Option-cases (stream_of c hdr)) [
  | inl absent ↦ rw (retire, absent) o
  | inr (s, found) ↦ rw (retire, found) (reap-Orderly c s o)
]

track-Orderly : (c : Connection) (hdr : FrameHdr) → Orderly c → Orderly (track c hdr)
unfolding track
track-Orderly c hdr o =
    either Orderly
      (not (hdr.stream_id == 0)
        && (is_remote c hdr.stream_id && ltb c.last_stream_id hdr.stream_id))
      _ _ o o

process_frame-Orderly :
    (env : Env) (c : Connection) (hdr : FrameHdr) (payload : List ℕ)
    → Orderly c
    → Each Orderly (process_frame env c hdr payload)
unfolding process_frame
process_frame-Orderly env c hdr payload o =
    Each-if Orderly (ltb 9 hdr.type) _ _ (λ unknown. o)
      (λ known.
        Each-bind (λ (s : Bool × Connection). Orderly s.1) Orderly (frame_process env c hdr payload)
          _ (frame_process-Orderly env c hdr payload o) (λ s os. retire-Orderly hdr s.0 s.1 os))

package_frame-Orderly :
    (env : Env) (c : Connection) (bytes : List ℕ) (len : ℕ) (r : Result FrameHdr)
    → Orderly c
    → Each (λ (s : Option ℕ × Connection). Orderly s.1) (package_frame env c bytes len r)
unfolding package_frame
package_frame-Orderly env c bytes len (err code) o = tt
package_frame-Orderly env c bytes len out_of_bounds o = tt
package_frame-Orderly env c bytes len (ok hdr) o =
    let P : Option ℕ × Connection → Type 0 = λ s. Orderly s.1 in
    Each-if P (ltb len (hdr.length + frame_header_size)) _ _ (λ short. o)
      (λ whole.
        Each-if P (breaks_block c hdr) _ _
          (λ wrong.
            Each-bind Orderly P (fail_with env c Http2ErrorCode.protocol_error) _
              (fail-Orderly env c _ 0 [] o) (λ d od. od))
          (λ expected.
            Each-if P (c.sent_goaway && ltb c.sent_goaway_stream_id hdr.stream_id) _ _
              (λ ignored. o)
              (λ taken.
                Each-bind Orderly P
                  (process_frame env (track c hdr) hdr (drop frame_header_size bytes)) _
                  (process_frame-Orderly env (track c hdr) hdr (drop frame_header_size bytes)
                    (track-Orderly c hdr o))
                  (λ d od. od))))

-- `package_process` keeps the invariant, whatever bytes it is given and whatever it returns.
pub package_process-Orderly :
    (env : Env) (c : Connection) (bytes : List ℕ) (len : ℕ)
    → Orderly c
    → Each (λ (s : Option ℕ × Connection). Orderly s.1) (package_process env c bytes len)
unfolding package_process
package_process-Orderly env c bytes len o =
    Each-if (λ (s : Option ℕ × Connection). Orderly s.1) (ltb len frame_header_size) _ _
      (λ short. o)
      (λ enough. package_frame-Orderly env c bytes len (http2_frame_header_unpack bytes) o)
