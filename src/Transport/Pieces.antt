-- ===== src/Transport/Pieces.antt =====
-- `ReceivedData` of src/http2.cc on bytes that come in pieces.
use libhttp.Prelude.{
  ℕ, zero, suc, ◌+◌, ◌<◌, ◌≡◌, ◌≢◌, Option, some, none, inl, inr, refl, sym, ap, ◌∙◌, false, List,
  ◌++◌, length, drop, length-drop, length-append, Bool-cases, ltb, Result, ok, err, out_of_bounds,
  arith,
}
use libhttp.SliceBuffer.Bytes.{drop-drop, drop-append_within}
use libhttp.Frame.{FrameHdr, frame_header_size}
use libhttp.Connection.{Connection, Env, local_max_frame_size}
use libhttp.Transport.{
  Reception, returns, fails, broken, unfinished, consume, Turn, goes_on, stops, refuses, breaks,
  turn_of, receive_sized, receive_frame, receive_loop, receive_frames,
}
use libhttp.Codec.Prefix.{Begins-append, Grows, header_unpack-Grows}
use libhttp.Connection.Framed.{Kept, package_process-Kept}
use libhttp.Transport.Loop.{IsSize, receive_frame-IsSize}

-- What the bytes that came first decide is not changed by those that come later, unless a read goes
-- behind them.
abbrev Stays : Turn → Turn → Type 0
Stays (goes_on n d) u = u ≡ goes_on n d
Stays stops u = Unit
Stays (refuses d) u = u ≡ refuses d
Stays breaks u = Unit

Stays-same : (t : Turn) → Stays t t
Stays-same (goes_on n d) = refl
Stays-same stops = tt
Stays-same (refuses d) = refl
Stays-same breaks = tt

Stays-turn : (r s : Option (Option ℕ × Connection)) → Kept r s → Stays (turn_of r) (turn_of s)
Stays-turn none s h = tt
Stays-turn (some (none, d)) s h = rw h refl
Stays-turn (some (some n, d)) s h = rw h refl

receive_sized-Stays :
    (env : Env) (c : Connection) (a b : List ℕ) (r s : Result FrameHdr)
    → Grows r s
    → Stays (receive_sized env c a r) (receive_sized env c (a ++ b) s)
unfolding receive_sized
receive_sized-Stays env c a b (err code) s g = tt
receive_sized-Stays env c a b out_of_bounds s g = tt
receive_sized-Stays env c a b (ok hdr) s g =
    elim (Bool-cases (ltb (local_max_frame_size c) hdr.length)) [
      | inl large ↦ rw (g, large) (Stays-same _)
      | inr fits ↦ elim (Bool-cases (ltb (length a) (hdr.length + frame_header_size))) [
        | inl short ↦ rw (fits, short) tt
        | inr whole ↦
            let sum = length-append a b in
            let still : ltb (length (a ++ b)) (hdr.length + frame_header_size) ≡ false =
              ground arith in
            rw (g, fits, whole, still)
              (Stays-turn _ _ (
                package_process-Kept env c a (a ++ b) (hdr.length + frame_header_size)
                  (Begins-append a b)))
      ]
    ]

receive_frame-Stays :
    (env : Env) (c : Connection) (a b : List ℕ)
    → Stays (receive_frame env c a) (receive_frame env c (a ++ b))
unfolding receive_frame
receive_frame-Stays env c a b = elim (Bool-cases (ltb (length a) frame_header_size)) [
  | inl short ↦ rw short tt
  | inr enough ↦
      let sum = length-append a b in
      let still : ltb (length (a ++ b)) frame_header_size ≡ false = ground arith in
      rw (enough, still)
        (receive_sized-Stays env c a b _ _ (header_unpack-Grows a (a ++ b) (Begins-append a b)))
]

consume-zero : (r : Reception) → consume 0 r ≡ r
consume-zero (returns m d) = ap (λ (i : ℕ). returns i d) (omega arith)
consume-zero (fails d) = refl
consume-zero broken = refl
consume-zero unfinished = refl

consume-consume : (n m : ℕ) (r : Reception) → consume n (consume m r) ≡ consume (n + m) r
consume-consume n m (returns k d) = ap (λ (i : ℕ). returns i d) (omega arith)
consume-consume n m (fails d) = refl
consume-consume n m broken = refl
consume-consume n m unfinished = refl

-- Any fuel that is enough gives one result.
receive_turn-enough :
    (env : Env) (f g : ℕ) (c : Connection) (buf : List ℕ) (t : Turn)
    → receive_frame env c buf ≡ t
    → IsSize buf t
    → length buf < suc f
    → length buf < suc g
    → ((d : Connection) (rest : List ℕ)
        → length rest < f
        → length rest < g
        → receive_loop env f d rest ≡ receive_loop env g d rest)
    → receive_loop env (suc f) c buf ≡ receive_loop env (suc g) c buf
unfolding receive_loop
receive_turn-enough env f g c buf (goes_on n d) e (lo, hi) hf hg later =
    let size = length-drop n buf in
    rw (receive_loop, e) (ap (consume n) (later d (drop n buf) (omega arith) (omega arith)))
receive_turn-enough env f g c buf stops e s hf hg later = rw (receive_loop, e) refl
receive_turn-enough env f g c buf (refuses d) e s hf hg later = rw (receive_loop, e) refl
receive_turn-enough env f g c buf breaks e s hf hg later = rw (receive_loop, e) refl

receive_loop-enough :
    (env : Env) (f g : ℕ) (c : Connection) (buf : List ℕ)
    → length buf < f
    → length buf < g
    → receive_loop env f c buf ≡ receive_loop env g c buf
receive_loop-enough env zero g c buf hf hg = absurd (omega arith)
receive_loop-enough env (suc f) zero c buf hf hg = absurd (omega arith)
receive_loop-enough env (suc f) (suc g) c buf hf hg =
    receive_turn-enough env f g c buf (receive_frame env c buf) refl
      (receive_frame-IsSize env c buf) hf hg (λ d rest. receive_loop-enough env f g d rest)

-- The bytes that the first call left are put in front of the new ones; an error ends the connection.
abbrev pub resume : Env → List ℕ → List ℕ → Reception → Reception
resume env a b (returns n d) = consume n (receive_frames env d (drop n a ++ b))
resume env a b (fails d) = fails d
resume env a b broken = broken
resume env a b unfinished = unfinished

resume-consume :
    (env : Env) (n : ℕ) (a b : List ℕ) (r : Reception)
    → consume n (resume env (drop n a) b r) ≡ resume env a b (consume n r)
resume-consume env n a b (returns m d) =
    consume-consume n m (receive_frames env d (drop m (drop n a) ++ b))
    ∙ ap (λ rest. consume (n + m) (receive_frames env d (rest ++ b))) (drop-drop n m a refl)
resume-consume env n a b (fails d) = refl
resume-consume env n a b broken = refl
resume-consume env n a b unfinished = refl

receive_turn-resume :
    (env : Env) (f g : ℕ) (c : Connection) (a b : List ℕ) (t : Turn)
    → receive_frame env c a ≡ t
    → IsSize a t
    → Stays t (receive_frame env c (a ++ b))
    → receive_loop env (suc f) c a ≢ broken
    → length a < suc f
    → length (a ++ b) < suc g
    → ((d : Connection) (rest : List ℕ)
        → receive_loop env f d rest ≢ broken
        → length rest < f
        → length (rest ++ b) < g
        → receive_loop env g d (rest ++ b) ≡ resume env rest b (receive_loop env f d rest))
    → receive_loop env (suc g) c (a ++ b) ≡ resume env a b (receive_loop env (suc f) c a)
unfolding receive_loop
receive_turn-resume env f g c a b (goes_on n d) e (lo, hi) stays whole hf hg later =
    let size = length-drop n a in
    let front = drop-append_within n a b hi in
    let sum = length-append a b in
    let rest_sum = length-append (drop n a) b in
    let goes : receive_loop env (suc f) c a ≡ consume n (receive_loop env f d (drop n a)) =
      rw (receive_loop, e) refl in
    let rest_whole : receive_loop env f d (drop n a) ≢ broken =
      λ broke. whole (goes ∙ ap (consume n) broke) in
    rw (receive_loop, e, stays, front)
      (ap (consume n) (later d (drop n a) rest_whole (omega arith) (omega arith))
        ∙ resume-consume env n a b (receive_loop env f d (drop n a)))
receive_turn-resume env f g c a b stops e s stays whole hf hg later =
    let ended : receive_loop env (suc f) c a ≡ returns 0 c = rw (receive_loop, e) refl in
    receive_loop-enough env (suc g) (suc (length (a ++ b))) c (a ++ b) hg (omega arith)
    ∙ sym (consume-zero (receive_frames env c (a ++ b)))
    ∙ ap (resume env a b) (sym ended)
receive_turn-resume env f g c a b (refuses d) e s stays whole hf hg later =
    rw (receive_loop, e, stays) refl
receive_turn-resume env f g c a b breaks e s stays whole hf hg later =
    absurd (whole (rw (receive_loop, e) refl))

receive_loop-resume :
    (env : Env) (f g : ℕ) (c : Connection) (a b : List ℕ)
    → receive_loop env f c a ≢ broken
    → length a < f
    → length (a ++ b) < g
    → receive_loop env g c (a ++ b) ≡ resume env a b (receive_loop env f c a)
receive_loop-resume env zero g c a b whole hf hg = absurd (omega arith)
receive_loop-resume env (suc f) zero c a b whole hf hg = absurd (omega arith)
receive_loop-resume env (suc f) (suc g) c a b whole hf hg =
    receive_turn-resume env f g c a b (receive_frame env c a) refl (receive_frame-IsSize env c a)
      (receive_frame-Stays env c a b) whole hf hg (λ d rest. receive_loop-resume env f g d rest b)

-- It makes no difference to the frame loop how the network cuts the bytes, if a call with the first
-- piece `a` alone fails no assertion and no read of it goes behind the bytes that came or, within a
-- Huffman string, behind its header block: then a call with `a` and, if it is no error, one with what it
-- left of them and `b` behind that, come to the same count of bytes consumed, connection and result as
-- one call with `a` and `b` together, although `package_process` is given a pointer into all of them;
-- and after an error on `a` more bytes change nothing.
pub receive_frames-resume :
    (env : Env) (c : Connection) (a b : List ℕ)
    → receive_frames env c a ≢ broken
    → receive_frames env c (a ++ b) ≡ resume env a b (receive_frames env c a)
receive_frames-resume env c a b whole =
    receive_loop-resume env (suc (length a)) (suc (length (a ++ b))) c a b whole (omega arith)
      (omega arith)
