-- ===== src/Settings/Ranges.antt =====
-- The settings that the connection keeps of its peer stay within the table's ranges.
use libhttp.Prelude.{
  ℕ, zero, suc, ◌≤◌, ◌≡◌, refl, ap, ◌||◌, List, [], ◌∷◌, ◌++◌, some, get_elem?, set, ltb, ◌==◌, ◌%◌,
  Bool-cases, Option-cases, inl, inr, ◌⊎◌, arith,
}
use mathlib.Core.Path.{subst}
use libhttp.Types.{ack, has_flag}
use libhttp.Frame.{SettingsEntry, SettingsFrame}
use libhttp.Settings.{
  InvalidValueBehavior, clamp, disconnect, SettingParameters, global_settings_parameters, Settings,
  Effect, Received, accepted, disconnected, clamped, store, out_of_range, receive_entry,
  receive_entries, received_settings,
}

-- A value for each row of the table, within its range.
abbrev pub AllWithin : List SettingParameters → List ℕ → Type 0
AllWithin [] [] = Unit
AllWithin [] (v ∷ vs) = ⊥
AllWithin (p ∷ ps) [] = ⊥
AllWithin (p ∷ ps) (v ∷ vs) = ((p.min_value ≤ v) × (v ≤ p.max_value)) × AllWithin ps vs

set-AllWithin :
    (ps : List SettingParameters) (vs : List ℕ) (i v : ℕ) (p : SettingParameters)
    → AllWithin ps vs
    → get_elem? ps i ≡ some p
    → p.min_value ≤ v
    → v ≤ p.max_value
    → AllWithin ps (set vs i v)
set-AllWithin [] vs i v p h e lo hi = absurd (cc e)
set-AllWithin (q ∷ ps) [] i v p h e lo hi = h
set-AllWithin (q ∷ ps) (w ∷ vs) zero v p h e lo hi =
    let same : q ≡ p = cc e in
    let low = ap (λ r. r.min_value) same in
    let high = ap (λ r. r.max_value) same in ((omega arith, omega arith), h.1)
set-AllWithin (q ∷ ps) (w ∷ vs) (suc i) v p h e lo hi = (h.0, set-AllWithin ps vs i v p h.1 e lo hi)

abbrev AllProper : List SettingParameters → Type 0
AllProper [] = Unit
AllProper (p ∷ ps) = (p.min_value ≤ p.max_value) × AllProper ps

get_elem?-AllProper :
    (ps : List SettingParameters) (i : ℕ) (p : SettingParameters)
    → AllProper ps
    → get_elem? ps i ≡ some p
    → p.min_value ≤ p.max_value
get_elem?-AllProper [] i p h e = absurd (cc e)
get_elem?-AllProper (q ∷ ps) zero p h e =
    let same : q ≡ p = cc e in
    let low = ap (λ r. r.min_value) same in
    let high = ap (λ r. r.max_value) same in let proper = h.0 in omega arith
get_elem?-AllProper (q ∷ ps) (suc i) p h e = get_elem?-AllProper ps i p h.1 e

-- The rows of the table have a range.
global_settings_parameters-AllProper : AllProper global_settings_parameters
global_settings_parameters-AllProper = (
  omega arith,
  (omega arith, (omega arith, (omega arith, (omega arith, (omega arith, (omega arith, tt)))))),
)

clamped-within :
    (p : SettingParameters) (v : ℕ)
    → p.min_value ≤ p.max_value
    → (p.min_value ≤ clamped p v) × (clamped p v ≤ p.max_value)
unfolding clamped
clamped-within p v h = (ground arith, ground arith)

-- Each setting of the peer is within its range.
abbrev pub IsWithin : Settings → Type 0
IsWithin s = AllWithin global_settings_parameters s.remote_settings

-- What a round leaves.
abbrev Keeps : Received → Type 0
Keeps (accepted t effects stored) = IsWithin t
Keeps (disconnected code) = Unit

store-Keeps :
    (s : Settings) (id v : ℕ) (p : SettingParameters)
    → IsWithin s
    → get_elem? global_settings_parameters id ≡ some p
    → p.min_value ≤ v
    → v ≤ p.max_value
    → Keeps (store s id v)
unfolding store
store-Keeps s id v p h e lo hi =
    set-AllWithin global_settings_parameters s.remote_settings id v p h e lo hi

out_of_range-Keeps :
    (s : Settings) (id v : ℕ) (p : SettingParameters) (b : InvalidValueBehavior)
    → p.invalid_value_behavior ≡ b
    → IsWithin s
    → get_elem? global_settings_parameters id ≡ some p
    → Keeps (out_of_range s p id v)
unfolding out_of_range clamped
out_of_range-Keeps s id v p clamp is h e =
    let proper =
      get_elem?-AllProper global_settings_parameters id p global_settings_parameters-AllProper e in
    let within = clamped-within p v proper in
    rw is (store-Keeps s id (clamped p v) p h e within.0 within.1)
out_of_range-Keeps s id v p disconnect is h e = rw is tt

receive_entry-Keeps :
    (s : Settings) (setting : SettingsEntry) → IsWithin s → Keeps (receive_entry s setting)
unfolding receive_entry
receive_entry-Keeps s setting h =
    elim (Option-cases (get_elem? global_settings_parameters setting.id)) [
      | inl unknown ↦ rw unknown h
      | inr (p, known) ↦
          elim (Bool-cases (ltb setting.value p.min_value || ltb p.max_value setting.value)) [
            | inl outside ↦
                rw (known, outside)
                  (out_of_range-Keeps s setting.id setting.value p p.invalid_value_behavior refl h
                    known)
            | inr inside ↦
                rw (known, inside)
                  (store-Keeps s setting.id setting.value p h known (ground arith) (ground arith))
          ]
    ]

Received-cases :
    (r : Received)
    → ((t : Settings) × (fs : List Effect) × (stored : SettingsEntry) × (r ≡ accepted t fs stored))
      ⊎ ((code : ℕ) × (r ≡ disconnected code))
Received-cases (accepted t fs stored) = inl (t, fs, stored, refl)
Received-cases (disconnected code) = inr (code, refl)

receive_entries-IsWithin :
    (es : List SettingsEntry) (s : Settings) (effects : List Effect) (vec : List SettingsEntry)
    → IsWithin s
    → IsWithin (receive_entries es s effects vec).0
unfolding receive_entries
receive_entries-IsWithin [] s effects vec h = h
receive_entries-IsWithin (e ∷ es) s effects vec h = elim (Received-cases (receive_entry s e)) [
  | inl (t, fs, stored, took) ↦
      let kept : IsWithin t = subst Keeps took (receive_entry-Keeps s e h) in
      rw (receive_entries, took)
        (receive_entries-IsWithin es t (effects ++ fs) (vec ++ (stored ∷ [])) kept)
  | inr (code, refused) ↦ rw (receive_entries, refused) h
]

-- Whatever SETTINGS frame arrives, `received_settings` leaves each setting of the peer within the
-- range of the table, clamped or with the frame refused, if it was there before.
pub received_settings-IsWithin :
    (s : Settings) (frame : SettingsFrame) → IsWithin s → IsWithin (received_settings s frame).0
unfolding received_settings
received_settings-IsWithin s frame h = elim (Bool-cases (frame.hdr.length % 6 == 0)) [
  | inr odd ↦ rw odd h
  | inl whole ↦ elim (Bool-cases (frame.hdr.stream_id == 0)) [
    | inr stream ↦ rw (whole, stream) h
    | inl connection ↦ elim (Bool-cases (has_flag frame.hdr.flags ack)) [
      | inr new ↦ rw (whole, connection, new) (receive_entries-IsWithin frame.settings s [] [] h)
      | inl acknowledged ↦ elim (Bool-cases (frame.hdr.length == 0)) [
        | inl empty ↦ rw (whole, connection, acknowledged, empty) h
        | inr filled ↦ rw (whole, connection, acknowledged, filled) h
      ]
    ]
  ]
]
