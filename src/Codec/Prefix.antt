-- ===== src/Codec/Prefix.antt =====
-- The parsers of src/http2/parser.cc on a buffer that goes on: what they make of the bytes that are there
-- is not changed by what stands behind them.
use libhttp.Prelude.{
  ℕ, zero, suc, ◌+◌, ◌-◌, ◌/◌, ◌≤◌, ◌≡◌, refl, ap, inl, inr, Bool, true, false, List, [], ◌∷◌, ◌++◌,
  Result, ok, err, out_of_bounds, ◌>>=◌, read, view, length, take, drop, if◌then◌else◌, leb,
  Bool-cases, arith,
}
use libhttp.Types.{Http2FrameFlag, has_flag}
use libhttp.Wire.{get_uint16_from_be_stream, get_uint32_from_be_stream}
use libhttp.Frame.{FrameHdr, http2_frame_header_unpack}
use libhttp.Parser.{
  unpad, parse_priority_spec, parse_settings_entries, parse_http2_frame_data,
  parse_http2_frame_headers, parse_http2_frame_priority, parse_http2_frame_rst_stream,
  parse_http2_frame_settings, parse_http2_frame_push_promise, parse_http2_frame_ping,
  parse_http2_frame_goaway, parse_http2_frame_window_update, parse_http2_frame_continuation,
}

-- `ys` begins with `xs`.
abbrev pub Begins : List ℕ → List ℕ → Type 0
Begins [] ys = Unit
Begins (x ∷ xs) [] = ⊥
Begins (x ∷ xs) (y ∷ ys) = (y ≡ x) × Begins xs ys

pub Begins-append : (xs ys : List ℕ) → Begins xs (xs ++ ys)
Begins-append [] ys = tt
Begins-append (x ∷ xs) ys = (refl, Begins-append xs ys)

pub Begins-drop : (n : ℕ) (xs ys : List ℕ) → Begins xs ys → Begins (drop n xs) (drop n ys)
Begins-drop zero xs ys h = h
Begins-drop (suc n) [] ys h = tt
Begins-drop (suc n) (x ∷ xs) [] h = absurd h
Begins-drop (suc n) (x ∷ xs) (y ∷ ys) (e, h) = Begins-drop n xs ys h

pub Begins-length : (xs ys : List ℕ) → Begins xs ys → length xs ≤ length ys
Begins-length [] ys h = omega arith
Begins-length (x ∷ xs) [] h = absurd h
Begins-length (x ∷ xs) (y ∷ ys) (e, h) = let rest = Begins-length xs ys h in omega arith

take-Begins : (n : ℕ) (xs ys : List ℕ) → Begins xs ys → n ≤ length xs → take n ys ≡ take n xs
take-Begins zero xs ys h within = refl
take-Begins (suc n) [] ys h within = absurd (omega arith)
take-Begins (suc n) (x ∷ xs) [] h within = absurd h
take-Begins (suc n) (x ∷ xs) (y ∷ ys) (e, h) within =
    rw (e, take-Begins n xs ys h (omega arith)) refl

-- A result that comes from the bytes at hand stays with more of them.
abbrev pub Grows {ℓ} : {A : Type ℓ} → Result A → Result A → Type ℓ
Grows (ok a) s = s ≡ ok a
Grows (err e) s = s ≡ err e
Grows out_of_bounds s = Unit

Grows-same {ℓ} : {A : Type ℓ} (r : Result A) → Grows r r
Grows-same (ok a) = refl
Grows-same (err e) = refl
Grows-same out_of_bounds = tt

Grows-bind {ℓ κ} :
    {A : Type ℓ} {B : Type κ} (r s : Result A) (f g : A → Result B)
    → Grows r s
    → ((a : A) → Grows (f a) (g a))
    → Grows (r >>= f) (s >>= g)
Grows-bind (ok a) s f g h k = rw h (k a)
Grows-bind (err e) s f g h k = rw h refl
Grows-bind out_of_bounds s f g h k = tt

Grows-if {ℓ} :
    {A : Type ℓ} (b : Bool) (r s t u : Result A)
    → Grows r t
    → Grows s u
    → Grows (if b then r else s) (if b then t else u)
Grows-if true r s t u h k = h
Grows-if false r s t u h k = k

-- The rest of a function after a test that does not look at the bytes.
Grows-then {ℓ κ} :
    {A : Type ℓ} {B : Type κ} (r : Result A) (f g : A → Result B)
    → ((a : A) → Grows (f a) (g a))
    → Grows (r >>= f) (r >>= g)
Grows-then r f g k = Grows-bind r r f g (Grows-same r) k

read-Grows : (xs ys : List ℕ) (i : ℕ) → Begins xs ys → Grows (read xs i) (read ys i)
read-Grows [] ys i h = tt
read-Grows (x ∷ xs) [] i h = absurd h
read-Grows (x ∷ xs) (y ∷ ys) zero (e, h) = ap ok e
read-Grows (x ∷ xs) (y ∷ ys) (suc i) (e, h) = read-Grows xs ys i h

length-drop-all : (n : ℕ) (xs : List ℕ) {k : ℕ} → n + k ≤ length xs → k ≤ length (drop n xs)
length-drop-all zero xs h = omega arith
length-drop-all (suc n) [] h = omega arith
length-drop-all (suc n) (x ∷ xs) h = length-drop-all n xs (omega arith)

view-Grows : (xs ys : List ℕ) (i n : ℕ) → Begins xs ys → Grows (view xs i n) (view ys i n)
view-Grows xs ys i n h = elim (Bool-cases (leb (i + n) (length xs))) [
  | inr short ↦ rw short tt
  | inl within ↦
      let longer = Begins-length xs ys h in
      let still : leb (i + n) (length ys) ≡ true = ground arith in
      let inside : i + n ≤ length xs = ground arith in
      rw (within, still)
        (ap ok (
          take-Begins n (drop i xs) (drop i ys) (Begins-drop i xs ys h)
            (length-drop-all i xs inside)))
]

module _ (xs ys : List ℕ) (h : Begins xs ys) where
  get_uint16-Grows : Grows (get_uint16_from_be_stream xs) (get_uint16_from_be_stream ys)
  unfolding get_uint16_from_be_stream
  get_uint16-Grows =
      Grows-bind _ _ _ _ (read-Grows xs ys 0 h)
        (λ a. Grows-bind _ _ _ _ (read-Grows xs ys 1 h) (λ b. refl))

  get_uint32-Grows : Grows (get_uint32_from_be_stream xs) (get_uint32_from_be_stream ys)
  unfolding get_uint32_from_be_stream
  get_uint32-Grows = Grows-bind _ _ _ _ (read-Grows xs ys 0 h) (λ a.
      Grows-bind _ _ _ _ (read-Grows xs ys 1 h) (λ b.
        Grows-bind _ _ _ _ (read-Grows xs ys 2 h)
          (λ c. Grows-bind _ _ _ _ (read-Grows xs ys 3 h) (λ d. refl))))

  parse_priority_spec-Grows : Grows (parse_priority_spec xs) (parse_priority_spec ys)
  unfolding parse_priority_spec
  parse_priority_spec-Grows = Grows-bind _ _ _ _ get_uint32-Grows (λ w.
      Grows-bind _ _ _ _ (read-Grows xs ys 0 h)
        (λ p0. Grows-bind _ _ _ _ (read-Grows xs ys 4 h) (λ p4. refl)))

parse_settings_entries-Grows :
    (n : ℕ) (xs ys : List ℕ)
    → Begins xs ys
    → Grows (parse_settings_entries n xs) (parse_settings_entries n ys)
unfolding parse_settings_entries
parse_settings_entries-Grows zero xs ys h = refl
parse_settings_entries-Grows (suc n) xs ys h = Grows-bind _ _ _ _ (get_uint16-Grows xs ys h) (λ id.
    Grows-bind _ _ _ _ (get_uint32-Grows (drop 2 xs) (drop 2 ys) (Begins-drop 2 xs ys h)) (λ value.
      Grows-bind _ _ _ _
        (parse_settings_entries-Grows n (drop 6 xs) (drop 6 ys) (Begins-drop 6 xs ys h))
        (λ rest. refl)))

pub header_unpack-Grows :
    (xs ys : List ℕ)
    → Begins xs ys
    → Grows (http2_frame_header_unpack xs) (http2_frame_header_unpack ys)
unfolding http2_frame_header_unpack
header_unpack-Grows xs ys h = Grows-bind _ _ _ _ (get_uint32-Grows xs ys h) (λ w.
    Grows-bind _ _ _ _ (read-Grows xs ys 3 h) (λ t. Grows-bind _ _ _ _ (read-Grows xs ys 4 h) (λ f.
      Grows-bind _ _ _ _ (get_uint32-Grows (drop 5 xs) (drop 5 ys) (Begins-drop 5 xs ys h))
        (λ s. refl))))

module _ (hdr : FrameHdr) (xs ys : List ℕ) (h : Begins xs ys) where
  unpad-Grows : Grows (unpad hdr xs) (unpad hdr ys)
  unfolding unpad
  unpad-Grows = elim (Bool-cases (has_flag hdr.flags Http2FrameFlag.padded)) [
    | inl padded ↦
        rw padded (Grows-bind _ _ _ _ (read-Grows xs ys 0 h) (λ pad_length. Grows-same _))
    | inr bare ↦ rw bare refl
  ]

  pub data-Grows : Grows (parse_http2_frame_data hdr xs) (parse_http2_frame_data hdr ys)
  unfolding parse_http2_frame_data
  data-Grows =
      Grows-bind _ _ _ _ unpad-Grows
        (λ p. Grows-bind _ _ _ _ (view-Grows xs ys p.offset p.size h) (λ body. refl))

  pub headers-Grows : Grows (parse_http2_frame_headers hdr xs) (parse_http2_frame_headers hdr ys)
  unfolding parse_http2_frame_headers
  headers-Grows = elim (Bool-cases (has_flag hdr.flags Http2FrameFlag.priority)) [
    | inl prioritised ↦ rw prioritised (
        Grows-bind _ _ _ _ unpad-Grows (λ p. Grows-then _ _ _ (λ long.
          Grows-bind _ _ _ _
            (parse_priority_spec-Grows (drop p.offset xs) (drop p.offset ys)
              (Begins-drop p.offset xs ys h))
            (λ spec.
              Grows-bind _ _ _ _ (view-Grows xs ys (p.offset + 5) (p.size - 5) h)
                (λ block. refl)))))
    | inr plain ↦ rw plain (
        Grows-bind _ _ _ _ unpad-Grows (λ p.
          Grows-then _ _ _
            (λ long. Grows-bind _ _ _ _ (view-Grows xs ys p.offset p.size h) (λ block. refl))))
  ]

  pub priority-Grows : Grows (parse_http2_frame_priority hdr xs) (parse_http2_frame_priority hdr ys)
  unfolding parse_http2_frame_priority
  priority-Grows =
      Grows-then _ _ _ (λ sized. Grows-bind _ _ _ _ (parse_priority_spec-Grows xs ys h) (λ s. refl))

  pub rst_stream-Grows :
      Grows (parse_http2_frame_rst_stream hdr xs) (parse_http2_frame_rst_stream hdr ys)
  unfolding parse_http2_frame_rst_stream
  rst_stream-Grows =
      Grows-then _ _ _ (λ sized. Grows-bind _ _ _ _ (get_uint32-Grows xs ys h) (λ code. refl))

  pub settings-Grows : Grows (parse_http2_frame_settings hdr xs) (parse_http2_frame_settings hdr ys)
  unfolding parse_http2_frame_settings
  settings-Grows = Grows-then _ _ _ (λ sized.
      Grows-bind _ _ _ _ (parse_settings_entries-Grows (hdr.length / 6) xs ys h) (λ es. refl))

  pub push_promise-Grows :
      Grows (parse_http2_frame_push_promise hdr xs) (parse_http2_frame_push_promise hdr ys)
  unfolding parse_http2_frame_push_promise
  push_promise-Grows = Grows-bind _ _ _ _ unpad-Grows (λ p. Grows-then _ _ _ (λ long.
      Grows-bind _ _ _ _
        (get_uint32-Grows (drop p.offset xs) (drop p.offset ys) (Begins-drop p.offset xs ys h))
        (λ w. Grows-bind _ _ _ _ (read-Grows xs ys p.offset h) (λ p0.
          Grows-bind _ _ _ _ (view-Grows xs ys (p.offset + 4) (p.size - 4) h) (λ block. refl)))))

  pub ping-Grows : Grows (parse_http2_frame_ping hdr xs) (parse_http2_frame_ping hdr ys)
  unfolding parse_http2_frame_ping
  ping-Grows =
      Grows-then _ _ _ (λ sized. Grows-bind _ _ _ _ (view-Grows xs ys 0 8 h) (λ opaque. refl))

  pub goaway-Grows : Grows (parse_http2_frame_goaway hdr xs) (parse_http2_frame_goaway hdr ys)
  unfolding parse_http2_frame_goaway
  goaway-Grows = Grows-then _ _ _ (λ long. Grows-bind _ _ _ _ (read-Grows xs ys 0 h) (λ p0.
      Grows-bind _ _ _ _ (get_uint32-Grows xs ys h) (λ w.
        Grows-bind _ _ _ _ (get_uint32-Grows (drop 4 xs) (drop 4 ys) (Begins-drop 4 xs ys h))
          (λ code. Grows-bind _ _ _ _ (view-Grows xs ys 8 (hdr.length - 8) h) (λ debug. refl)))))

  pub window_update-Grows :
      Grows (parse_http2_frame_window_update hdr xs) (parse_http2_frame_window_update hdr ys)
  unfolding parse_http2_frame_window_update
  window_update-Grows = Grows-then _ _ _ (λ sized.
      Grows-bind _ _ _ _ (read-Grows xs ys 0 h)
        (λ p0. Grows-bind _ _ _ _ (get_uint32-Grows xs ys h) (λ w. refl)))

  pub continuation-Grows :
      Grows (parse_http2_frame_continuation hdr xs) (parse_http2_frame_continuation hdr ys)
  unfolding parse_http2_frame_continuation
  continuation-Grows = Grows-bind _ _ _ _ (view-Grows xs ys 0 hdr.length h) (λ block. refl)
