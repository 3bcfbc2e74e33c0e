-- ===== src/Connection/Quiet.antt =====
-- The operations of src/http2/connection.cc that send and leave the streams, the ids and the settings of the
-- peer as they were.
use libhttp.Prelude.{
  ℕ, ◌+◌, ◌%◌, ◌^◌, ◌≡◌, inl, inr, refl, ◌∙◌, Bool, true, false, not, ◌&&◌, ◌||◌, List, [], ◌∷◌,
  ◌++◌, Option, some, none, length, map, drop, if◌then◌else◌, Option-cases, ◌==◌,
}
use libhttp.Hpack.Compressor.{compressor_encode_headers}
use libhttp.SliceBuffer.{slice_buffer_init, merge, empty}
use libhttp.Connection.{Connection, Env, WindowUpdate, FlowControlHandler, ◌>>=◌, preface}
use libhttp.Connection.Output.{
  call_service, buffer_raw_data, send_raw_data, buffer_slices, send_slices, send_raw_slices,
  send_http2_frame, send_http2_frames, emit, ensure_preface_sent, send_initial_settings,
  flush_buffer, after_flush,
}
use libhttp.Connection.Send.{
  send_goaway, send_window_update, window_update, encode_block, to_mdelem, pre_send, consult,
  send_binary_in_headers_frame, send_binary_in_data_frame, exceeds_window, consume_window,
}
use libhttp.Connection.Orderly.{core}

-- What holds of a result, if there is one.
abbrev pub Each {ℓ} : {A : Type ℓ} → (A → Type 0) → Option A → Type 0
Each P none = Unit
Each P (some a) = P a

pub Each-bind {ℓ κ} :
    {A : Type ℓ} {B : Type κ} (P : A → Type 0) (Q : B → Type 0) (r : Option A) (f : A → Option B)
    → Each P r
    → ((a : A) → P a → Each Q (f a))
    → Each Q (r >>= f)
Each-bind P Q none f h k = tt
Each-bind P Q (some a) f h k = k a h

pub Each-if {ℓ} :
    {A : Type ℓ} (P : A → Type 0) (b : Bool) (x y : Option A)
    → (b ≡ true → Each P x)
    → (b ≡ false → Each P y)
    → Each P (if b then x else y)
Each-if P true x y h k = h refl
Each-if P false x y h k = k refl

pub Each-map {ℓ} :
    {A : Type ℓ} (P Q : A → Type 0) (r : Option A) → Each P r → ((a : A) → P a → Q a) → Each Q r
Each-map P Q none h k = tt
Each-map P Q (some a) h k = k a h

pub either {ℓ} :
    {A : Type ℓ} (P : A → Type 0) (b : Bool) (x y : A) → P x → P y → P (if b then x else y)
either P true x y h k = h
either P false x y h k = k

pub Each-any {ℓ} : {A : Type ℓ} (r : Option A) → Each (λ a. Unit) r
Each-any none = tt
Each-any (some a) = tt

-- The same core.
abbrev pub Quiet : Connection → Connection → Type 0
Quiet c d = core d ≡ core c

abbrev pub QuietPair {ℓ} : {A : Type ℓ} → Connection → A × Connection → Type 0
QuietPair c r = Quiet c r.1

send_raw_data-Quiet :
    (env : Env) (c : Connection) (s : List ℕ) → QuietPair c (send_raw_data env c s)
unfolding send_raw_data buffer_raw_data
send_raw_data-Quiet env c s = either (QuietPair c) c.buffered_mode _ _ refl refl

buffer_slices-Quiet : (c : Connection) (ss : List (List ℕ)) → Quiet c (buffer_slices c ss)
unfolding buffer_slices buffer_raw_data
buffer_slices-Quiet c [] = refl
buffer_slices-Quiet c (s ∷ ss) = buffer_slices-Quiet (buffer_raw_data c s) ss

send_slices-Quiet :
    (env : Env) (ss : List (List ℕ)) (total : ℕ) (c : Connection)
    → QuietPair c (send_slices env ss total c)
unfolding send_slices
send_slices-Quiet env [] total c = refl
send_slices-Quiet env (s ∷ ss) total c = elim (Option-cases (call_service env c s).0) [
  | inl failed ↦ rw (send_slices, failed) refl
  | inr (ret, sent) ↦
      rw (send_slices, sent)
        (send_slices-Quiet env ss ((total + ret) % 2 ^ 32) (call_service env c s).1)
]

pub send_http2_frame-Quiet :
    (env : Env) (c : Connection) (packed : Option (List ℕ))
    → Each (QuietPair c) (send_http2_frame env c packed)
unfolding send_http2_frame
send_http2_frame-Quiet env c none = tt
send_http2_frame-Quiet env c (some s) = send_raw_data-Quiet env c s

pub send_http2_frames-Quiet :
    (env : Env) (c : Connection) (packed : Option (List (List ℕ)))
    → Each (QuietPair c) (send_http2_frames env c packed)
unfolding send_http2_frames send_raw_slices
send_http2_frames-Quiet env c none = tt
send_http2_frames-Quiet env c (some ss) =
    either (QuietPair c) c.buffered_mode _ _ (buffer_slices-Quiet c ss)
      (send_slices-Quiet env ss 0 c)

pub emit-Quiet :
    (env : Env) (c : Connection) (packed : Option (List ℕ)) → Each (Quiet c) (emit env c packed)
unfolding emit
emit-Quiet env c packed =
    Each-bind (QuietPair c) (Quiet c) (send_http2_frame env c packed) _
      (send_http2_frame-Quiet env c packed) (λ r h. h)

pub ensure_preface_sent-Quiet :
    (env : Env) (c : Connection) → Each (Quiet c) (ensure_preface_sent env c)
unfolding ensure_preface_sent
ensure_preface_sent-Quiet env c =
    Each-if (Quiet c) (not c.client_side || c.preface_sent) _ _ (λ done. refl)
      (λ due. elim (Option-cases (call_service env c preface).0) [
        | inl failed ↦ rw failed refl
        | inr (ret, sent) ↦ rw sent (
            Each-bind (Quiet c) (Quiet c) (emit env (call_service env c preface).1 _) _
              (emit-Quiet env (call_service env c preface).1 _) (λ d h. h))
      ])

pub send_initial_settings-Quiet :
    (env : Env) (c : Connection) → Each (Quiet c) (send_initial_settings env c)
unfolding send_initial_settings
send_initial_settings-Quiet env c =
    Each-if (Quiet c) c.initial_settings_sent _ _ (λ done. refl)
      (λ due.
        Each-bind (Quiet c) (Quiet c) (emit env (record c { initial_settings_sent = true }) _) _
          (emit-Quiet env (record c { initial_settings_sent = true }) _) (λ d h. h))

pub send_goaway-Quiet :
    (env : Env) (c : Connection) (code last : ℕ) (debug : List ℕ)
    → Each (Quiet c) (send_goaway env c code last debug)
unfolding send_goaway
send_goaway-Quiet env c code last debug =
    Each-bind (Quiet c) (Quiet c) (ensure_preface_sent env c) _ (ensure_preface_sent-Quiet env c)
      (λ d h. Each-bind (Quiet d) (Quiet c) (emit env d _) _ (emit-Quiet env d _) (λ e k. k ∙ h))

pub send_window_update-Quiet :
    (env : Env) (c : Connection) (stream_id : ℕ) (wu : WindowUpdate)
    → Each (QuietPair c) (send_window_update env c stream_id wu)
unfolding send_window_update
send_window_update-Quiet env c stream_id wu =
    Each-bind (Quiet c) (QuietPair c) (ensure_preface_sent env c) _
      (ensure_preface_sent-Quiet env c)
      (λ d h.
        Each-bind (λ front. Unit) (QuietPair c) (window_update stream_id _) _ (Each-any _)
          (λ front t.
            Each-bind (λ back. Unit) (QuietPair c) (window_update 0 _) _ (Each-any _)
              (λ back u. send_raw_data-Quiet env d (front ++ back) ∙ h)))

pub encode_block-Quiet :
    (env : Env) (c : Connection) (headers : List (List ℕ × List ℕ))
    → Each (QuietPair c) (encode_block env c headers)
unfolding encode_block
encode_block-Quiet env c headers =
    Each-bind (λ r. Unit) (QuietPair c)
      (compressor_encode_headers env.hash c.send_record (map to_mdelem headers) slice_buffer_init
        true)
      _ (Each-any _)
      (λ r t.
        Each-bind (λ (block : List ℕ). Unit) (QuietPair c) (merge r.0) _ (Each-any (merge r.0))
          (λ block u. refl))

pub send_binary_in_headers_frame-Quiet :
    (env : Env) (c : Connection) (stream_id : ℕ) (headers : List (List ℕ × List ℕ)) (flags : ℕ)
    → Each (QuietPair c) (send_binary_in_headers_frame env c stream_id headers flags)
unfolding send_binary_in_headers_frame
send_binary_in_headers_frame-Quiet env c stream_id headers flags =
    Each-bind (QuietPair c) (QuietPair c) (encode_block env c headers) _
      (encode_block-Quiet env c headers)
      (λ r h.
        Each-map (QuietPair r.1) (QuietPair c) (send_http2_frame env r.1 _)
          (send_http2_frame-Quiet env r.1 _) (λ s k. k ∙ h))

consult-Quiet :
    (handler : Option FlowControlHandler) (env : Env) (c : Connection) (stream_id size : ℕ)
    → Each (Quiet c) (consult handler env c stream_id size)
unfolding consult
consult-Quiet none env c stream_id size = refl
consult-Quiet (some handler) env c stream_id size =
    Each-bind (QuietPair c) (Quiet c) (send_window_update env c stream_id _) _
      (send_window_update-Quiet env c stream_id _) (λ r h. h)

pre_send-Quiet :
    (env : Env) (c : Connection) (stream_id size : ℕ)
    → Each (Quiet c) (pre_send env c stream_id size)
unfolding pre_send
pre_send-Quiet env c stream_id size =
    Each-if (Quiet c) (size == 0) _ _ (λ nothing. refl)
      (λ due. consult-Quiet c.flow_control env c stream_id size)

pub send_binary_in_data_frame-Quiet :
    (env : Env) (c : Connection) (stream_id : ℕ) (body : List ℕ) (ends : Bool)
    → Each (QuietPair c) (send_binary_in_data_frame env c stream_id body ends)
unfolding send_binary_in_data_frame
send_binary_in_data_frame-Quiet env c stream_id body ends =
    Each-if (QuietPair c) ((length body == 0) && not ends) _ _ (λ nothing. refl)
      (λ some_bytes.
        Each-if (QuietPair c) (exceeds_window c (length body)) _ _ (λ wide. refl)
          (λ fits.
            Each-bind (Quiet c) (QuietPair c)
              (pre_send env (consume_window c (length body)) stream_id (length body)) _
              (pre_send-Quiet env (consume_window c (length body)) stream_id (length body))
              (λ d h.
                Each-map (QuietPair d) (QuietPair c) (send_http2_frames env d _)
                  (send_http2_frames-Quiet env d _) (λ s k. k ∙ h))))

pub flush_buffer-Quiet : (env : Env) (c : Connection) → QuietPair c (flush_buffer env c)
unfolding flush_buffer
flush_buffer-Quiet env c = either (QuietPair c) (empty c.send_buffer) _ _ refl (
    flushed
      (send_slices env (drop c.send_buffer.start c.send_buffer.vs) 0
        (record c { buffered_mode = false }))
      (send_slices-Quiet env (drop c.send_buffer.start c.send_buffer.vs) 0
        (record c { buffered_mode = false })))
  where
    flushed : (r : Option ℕ × Connection) → QuietPair c r → QuietPair c (after_flush c r)
    flushed (none, d) h = h
    flushed (some n, d) h = h
