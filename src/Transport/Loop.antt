-- ===== src/Transport/Loop.antt =====
-- The loop of `ReceivedData` in src/http2.cc over the bytes that have come.
use libhttp.Prelude.{
  ℕ, zero, suc, ◌+◌, ◌<◌, ◌≤◌, ◌≡◌, ◌&&◌, inl, inr, refl, sym, ap, ◌∙◌, List, Option, some, none,
  length, drop, length-drop, Bool-cases, ltb, Result, ok, err, out_of_bounds, arith,
}
use libhttp.SliceBuffer.Bytes.{drop-drop}
use libhttp.Frame.{FrameHdr, frame_header_size, http2_frame_header_unpack}
use libhttp.Connection.{Connection, Env, local_max_frame_size, ◌>>=◌}
use libhttp.Connection.Process.{package_process, package_frame, breaks_block}
use libhttp.Transport.{
  Reception, returns, fails, broken, unfinished, consume, Turn, goes_on, stops, refuses, breaks,
  turn_of, refused, receive_sized, receive_frame, receive_loop, receive_frames,
}

-- What `package_process` returns is the size of the frame, or -1.
abbrev pub IsSize : List ℕ → Turn → Type 0
IsSize buf (goes_on n d) = (9 ≤ n) × (n ≤ length buf)
IsSize buf stops = Unit
IsSize buf (refuses d) = Unit
IsSize buf breaks = Unit

then_some-IsSize :
    (size : ℕ) (bytes : List ℕ) (r : Option Connection)
    → 9 ≤ size
    → size ≤ length bytes
    → IsSize bytes (turn_of (r >>= λ d. some (some size, d)))
then_some-IsSize size bytes none lo hi = tt
then_some-IsSize size bytes (some d) lo hi = (lo, hi)

then_none-IsSize :
    (bytes : List ℕ) (r : Option Connection) → IsSize bytes (turn_of (r >>= λ d. some (none, d)))
then_none-IsSize bytes none = tt
then_none-IsSize bytes (some d) = tt

package_frame-IsSize :
    (env : Env) (c : Connection) (bytes : List ℕ) (len : ℕ) (r : Result FrameHdr)
    → len ≤ length bytes
    → IsSize bytes (turn_of (package_frame env c bytes len r))
unfolding package_frame
package_frame-IsSize env c bytes len (err code) fits = tt
package_frame-IsSize env c bytes len out_of_bounds fits = tt
package_frame-IsSize env c bytes len (ok hdr) fits =
    elim (Bool-cases (ltb len (hdr.length + frame_header_size))) [
      | inl short ↦ rw short tt
      | inr whole ↦ elim (Bool-cases (breaks_block c hdr)) [
        | inl wrong ↦ rw (whole, wrong) (then_none-IsSize bytes _)
        | inr expected ↦
            elim (Bool-cases (c.sent_goaway && ltb c.sent_goaway_stream_id hdr.stream_id)) [
              | inl ignored ↦ rw (whole, expected, ignored) (omega arith, ground arith)
              | inr taken ↦
                  rw (whole, expected, taken)
                    (then_some-IsSize _ bytes _ (omega arith) (ground arith))
            ]
      ]
    ]

package_process-IsSize :
    (env : Env) (c : Connection) (bytes : List ℕ) (len : ℕ)
    → len ≤ length bytes
    → IsSize bytes (turn_of (package_process env c bytes len))
unfolding package_process
package_process-IsSize env c bytes len fits = elim (Bool-cases (ltb len frame_header_size)) [
  | inl short ↦ rw short tt
  | inr enough ↦
      rw enough (package_frame-IsSize env c bytes len (http2_frame_header_unpack bytes) fits)
]

refused-IsSize : (buf : List ℕ) (r : Option Connection) → IsSize buf (refused r)
refused-IsSize buf none = tt
refused-IsSize buf (some c) = tt

receive_sized-IsSize :
    (env : Env) (c : Connection) (buf : List ℕ) (r : Result FrameHdr)
    → IsSize buf (receive_sized env c buf r)
unfolding receive_sized
receive_sized-IsSize env c buf (err code) = tt
receive_sized-IsSize env c buf out_of_bounds = tt
receive_sized-IsSize env c buf (ok hdr) =
    elim (Bool-cases (ltb (local_max_frame_size c) hdr.length)) [
      | inl large ↦ rw large (refused-IsSize buf _)
      | inr fits ↦ elim (Bool-cases (ltb (length buf) (hdr.length + frame_header_size))) [
        | inl short ↦ rw (fits, short) tt
        | inr whole ↦
            rw (fits, whole)
              (package_process-IsSize env c buf (hdr.length + frame_header_size) (ground arith))
      ]
    ]

pub receive_frame-IsSize :
    (env : Env) (c : Connection) (buf : List ℕ) → IsSize buf (receive_frame env c buf)
unfolding receive_frame
receive_frame-IsSize env c buf = elim (Bool-cases (ltb (length buf) frame_header_size)) [
  | inl short ↦ rw short tt
  | inr enough ↦ rw enough (receive_sized-IsSize env c buf (http2_frame_header_unpack buf))
]

-- The bytes consumed are bytes that came, and what is left holds no complete frame.
abbrev pub Settles : Env → List ℕ → Reception → Type 0
Settles env buf (returns n d) = (n ≤ length buf) × (receive_frame env d (drop n buf) ≡ stops)
Settles env buf (fails d) = Unit
Settles env buf broken = Unit
Settles env buf unfinished = ⊥

Settles-consume :
    (env : Env) (n : ℕ) (buf : List ℕ) (r : Reception)
    → n ≤ length buf
    → Settles env (drop n buf) r
    → Settles env buf (consume n r)
Settles-consume env n buf (returns m d) h (within, stopped) =
    let size = length-drop n buf in
    (omega arith, ap (receive_frame env d) (sym (drop-drop n m buf (omega arith))) ∙ stopped)
Settles-consume env n buf (fails d) h s = tt
Settles-consume env n buf broken h s = tt
Settles-consume env n buf unfinished h s = s

receive_turn-Settles :
    (env : Env) (fuel : ℕ) (c : Connection) (buf : List ℕ) (t : Turn)
    → receive_frame env c buf ≡ t
    → IsSize buf t
    → length buf < suc fuel
    → ((d : Connection) (rest : List ℕ)
        → length rest < fuel
        → Settles env rest (receive_loop env fuel d rest))
    → Settles env buf (receive_loop env (suc fuel) c buf)
unfolding receive_loop
receive_turn-Settles env fuel c buf (goes_on n d) e (lo, hi) h later =
    let size = length-drop n buf in
    rw (receive_loop, e)
      (Settles-consume env n buf (receive_loop env fuel d (drop n buf)) hi
        (later d (drop n buf) (omega arith)))
receive_turn-Settles env fuel c buf stops e s h later = rw (receive_loop, e) (omega arith, e)
receive_turn-Settles env fuel c buf (refuses d) e s h later = rw (receive_loop, e) tt
receive_turn-Settles env fuel c buf breaks e s h later = rw (receive_loop, e) tt

receive_loop-Settles :
    (env : Env) (fuel : ℕ) (c : Connection) (buf : List ℕ)
    → length buf < fuel
    → Settles env buf (receive_loop env fuel c buf)
receive_loop-Settles env zero c buf h = absurd (omega arith)
receive_loop-Settles env (suc fuel) c buf h =
    receive_turn-Settles env fuel c buf (receive_frame env c buf) refl
      (receive_frame-IsSize env c buf) h (receive_loop-Settles env fuel)

-- On any bytes the loop over the frames ends, with the fuel it has. If it does not end in an error, it
-- has consumed no more bytes than came, and what it leaves of them begins with no complete frame.
pub receive_frames-Settles :
    (env : Env) (c : Connection) (buf : List ℕ) → Settles env buf (receive_frames env c buf)
receive_frames-Settles env c buf = receive_loop-Settles env (suc (length buf)) c buf (omega arith)
