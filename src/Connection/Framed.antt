-- ===== src/Connection/Framed.antt =====
-- `package_process` of src/http2/connection.cc has a pointer into a buffer that may hold more than its
-- frame: what it does is decided by the bytes that are there, whatever comes behind them.
use libhttp.Prelude.{
  ℕ, ◌+◌, ◌≡◌, refl, ◌&&◌, Bool, true, false, List, Option, some, none, if◌then◌else◌, ltb, ◌==◌,
  Result, ok, err, out_of_bounds,
}
use libhttp.Frame.{FrameHdr, frame_header_size}
use libhttp.Codec.Prefix.{
  Begins, Begins-drop, Grows, header_unpack-Grows, data-Grows, headers-Grows, priority-Grows,
  rst_stream-Grows, settings-Grows, push_promise-Grows, ping-Grows, goaway-Grows,
  window_update-Grows, continuation-Grows,
}
use libhttp.Connection.{Connection, Env, ◌>>=◌}
use libhttp.Connection.Process.{
  forward, frame_process, track, breaks_block, process_frame, package_frame, package_process,
}

-- A call that ends within the bytes at hand ends the same way with more.
abbrev pub Kept {ℓ} : {A : Type ℓ} → Option A → Option A → Type ℓ
Kept none s = Unit
Kept (some a) s = s ≡ some a

Kept-same {ℓ} : {A : Type ℓ} (r : Option A) → Kept r r
Kept-same none = tt
Kept-same (some a) = refl

Kept-bind {ℓ κ} :
    {A : Type ℓ} {B : Type κ} (r s : Option A) (f : A → Option B)
    → Kept r s
    → Kept (r >>= f) (s >>= f)
Kept-bind none s f h = tt
Kept-bind (some a) s f h = rw h (Kept-same (f a))

Kept-if {ℓ} :
    {A : Type ℓ} (b : Bool) (r s t u : Option A)
    → (b ≡ true → Kept r t)
    → (b ≡ false → Kept s u)
    → Kept (if b then r else s) (if b then t else u)
Kept-if true r s t u h k = h refl
Kept-if false r s t u h k = k refl

forward-Kept :
    {A : Type 0} (env : Env) (c : Connection) (hands_back : Bool) (r s : Result A)
    (handler : Connection → A → Option Connection)
    → Grows r s
    → Kept (forward env c hands_back r handler) (forward env c hands_back s handler)
unfolding forward
forward-Kept env c hands_back (ok a) s handler h = rw h (Kept-same _)
forward-Kept env c hands_back (err e) s handler h = rw h (Kept-same _)
forward-Kept env c hands_back out_of_bounds s handler h = tt

module _ (env : Env) (c : Connection) (xs ys : List ℕ) (h : Begins xs ys) where
  frame_process-Kept :
      (hdr : FrameHdr) → Kept (frame_process env c hdr xs) (frame_process env c hdr ys)
  unfolding frame_process
  frame_process-Kept hdr =
      Kept-if (hdr.type == 0) _ _ _ _ (λ y. forward-Kept env c _ _ _ _ (data-Grows hdr xs ys h))
        (λ n.
          Kept-if (hdr.type == 1) _ _ _ _
            (λ y. forward-Kept env c _ _ _ _ (headers-Grows hdr xs ys h))
            (λ n.
              Kept-if (hdr.type == 2) _ _ _ _
                (λ y. forward-Kept env c _ _ _ _ (priority-Grows hdr xs ys h))
                (λ n.
                  Kept-if (hdr.type == 3) _ _ _ _
                    (λ y. forward-Kept env c _ _ _ _ (rst_stream-Grows hdr xs ys h))
                    (λ n.
                      Kept-if (hdr.type == 4) _ _ _ _
                        (λ y. forward-Kept env c _ _ _ _ (settings-Grows hdr xs ys h))
                        (λ n.
                          Kept-if (hdr.type == 5) _ _ _ _
                            (λ y. forward-Kept env c _ _ _ _ (push_promise-Grows hdr xs ys h))
                            (λ n.
                              Kept-if (hdr.type == 6) _ _ _ _
                                (λ y. forward-Kept env c _ _ _ _ (ping-Grows hdr xs ys h))
                                (λ n.
                                  Kept-if (hdr.type == 7) _ _ _ _
                                    (λ y. forward-Kept env c _ _ _ _ (goaway-Grows hdr xs ys h))
                                    (λ n.
                                      Kept-if (hdr.type == 8) _ _ _ _
                                        (λ y.
                                          forward-Kept env c _ _ _ _
                                            (window_update-Grows hdr xs ys h))
                                        (λ n.
                                          forward-Kept env c _ _ _ _
                                            (continuation-Grows hdr xs ys h))))))))))

  process_frame-Kept :
      (hdr : FrameHdr) → Kept (process_frame env c hdr xs) (process_frame env c hdr ys)
  unfolding process_frame
  process_frame-Kept hdr =
      Kept-if (ltb 9 hdr.type) _ _ _ _ (λ unknown. refl)
        (λ known. Kept-bind _ _ _ (frame_process-Kept hdr))

package_frame-Kept :
    (env : Env) (c : Connection) (xs ys : List ℕ) (len : ℕ) (r s : Result FrameHdr)
    → Begins xs ys
    → Grows r s
    → Kept (package_frame env c xs len r) (package_frame env c ys len s)
unfolding package_frame
package_frame-Kept env c xs ys len (err e) s h g = tt
package_frame-Kept env c xs ys len out_of_bounds s h g = tt
package_frame-Kept env c xs ys len (ok hdr) s h g =
    let behind = Begins-drop frame_header_size xs ys h in
    rw g (
      Kept-if (ltb len (hdr.length + frame_header_size)) _ _ _ _ (λ short. refl)
        (λ whole.
          Kept-if (breaks_block c hdr) _ _ _ _ (λ wrong. Kept-same _)
            (λ expected.
              Kept-if (c.sent_goaway && ltb c.sent_goaway_stream_id hdr.stream_id) _ _ _ _
                (λ ignored. refl)
                (λ taken. Kept-bind _ _ _ (process_frame-Kept env (track c hdr) _ _ behind hdr)))))

pub package_process-Kept :
    (env : Env) (c : Connection) (xs ys : List ℕ) (len : ℕ)
    → Begins xs ys
    → Kept (package_process env c xs len) (package_process env c ys len)
unfolding package_process
package_process-Kept env c xs ys len h =
    Kept-if (ltb len frame_header_size) _ _ _ _ (λ short. refl)
      (λ enough. package_frame-Kept env c xs ys len _ _ h (header_unpack-Grows xs ys h))
