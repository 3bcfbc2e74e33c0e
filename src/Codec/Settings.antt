-- ===== src/Codec/Settings.antt =====
-- SETTINGS frames: the list of parameters.
use libhttp.Prelude.{
  ℕ, ◌*◌, ◌/◌, ◌^◌, ◌<◌, ◌≡◌, refl, sym, ◌∙◌, List, [], ◌∷◌, ◌++◌, ok, length, drop, append_assoc,
  All, arith,
}
use libhttp.Wire.{put_uint16_in_be_stream, put_uint32_in_be_stream}
use libhttp.Wire.RoundTrip.{
  get_uint16-put_uint16, get_uint32-put_uint32, put_uint16_bytes, put_uint32_bytes,
}
use libhttp.Frame.{SettingsEntry, SettingsFrame}
use libhttp.Parser.{parse_settings_entries, parse_http2_frame_settings}
use libhttp.Pack.{settings_payload, pack_http2_frame_settings}
use libhttp.Codec.{IsHdr, Arrives, Arrives-of}

-- A `uint16_t` identifier and a `uint32_t` value.
abbrev pub IsEntry : SettingsEntry → Type 0
IsEntry e = (e.id < 2 ^ 16) × (e.value < 2 ^ 32)

pub length-settings_payload :
    (es : List SettingsEntry) → length (settings_payload es) ≡ 6 * length es
unfolding settings_payload
length-settings_payload [] = refl
length-settings_payload (e ∷ es) =
    rw (put_uint16_bytes e.id, put_uint32_bytes e.value) (omega (arith, length-settings_payload es))

drop-entry :
    (e : SettingsEntry) (behind : List ℕ)
    → (drop 2 (put_uint16_in_be_stream e.id ++ behind) ≡ behind)
      × (drop 6 (put_uint16_in_be_stream e.id ++ (put_uint32_in_be_stream e.value ++ behind))
          ≡ behind)
drop-entry e behind = rw (put_uint16_bytes e.id, put_uint32_bytes e.value) (refl, refl)

parse_settings_entries-settings_payload :
    (es : List SettingsEntry) (rest : List ℕ)
    → All IsEntry es
    → parse_settings_entries (length es) (settings_payload es ++ rest) ≡ ok es
unfolding parse_settings_entries settings_payload
parse_settings_entries-settings_payload [] rest h = refl
parse_settings_entries-settings_payload (e ∷ es) rest (he, hes) =
    let value = put_uint32_in_be_stream e.value in
    let behind = settings_payload es ++ rest in
    rw
      (
        append_assoc (put_uint16_in_be_stream e.id) (value ++ settings_payload es) rest,
        append_assoc value (settings_payload es) rest,
      )
      (ground (
        arith,
        get_uint16-put_uint16 e.id (value ++ behind) he.0,
        drop-entry e (value ++ behind),
        drop-entry e behind,
        get_uint32-put_uint32 e.value behind he.1,
        parse_settings_entries-settings_payload es rest hes,
      ))

-- A SETTINGS frame arrives as it was sent, with any number of parameters in any order, if its length
-- is six times their number.
pub settings-Arrives :
    (f : SettingsFrame)
    → IsHdr f.hdr
    → f.hdr.length ≡ 6 * length f.settings
    → All IsEntry f.settings
    → Arrives (pack_http2_frame_settings f) parse_http2_frame_settings f
unfolding pack_http2_frame_settings parse_http2_frame_settings
settings-Arrives f h e all =
    Arrives-of parse_http2_frame_settings f.hdr.length f.hdr (settings_payload f.settings) f h
      (length-settings_payload f.settings ∙ sym e)
      (λ rest.
        let count : f.hdr.length / 6 ≡ length f.settings = omega arith in
        rw count (ground (arith, parse_settings_entries-settings_payload f.settings rest all)))
