-- ===== src/Tests/Peer.antt =====
-- SETTINGS frames of src/http2/connection.cc at concrete inputs.
use libhttp.Prelude.{ℕ, ◌≡◌, refl, true, false, List, [], ◌∷◌, get_elem?, some, arith}
use libhttp.Types.{has_flag}
use libhttp.Frame.{SettingsEntry, SettingsFrame}
use libhttp.Settings.{
  Settings, send_goaway, on_settings, compressor_set_max_table_size, send_settings_ack,
  received_settings, receive_entries, receive_entry, store, out_of_range, clamped, apply_requested,
}
use libhttp.Settings.Ranges.{IsWithin, received_settings-IsWithin}

abbrev fresh : Settings
fresh = record {
  local_settings = 0 ∷ 4096 ∷ 1 ∷ 4294967295 ∷ 65535 ∷ 16384 ∷ 16777216 ∷ [];
  remote_settings = 0 ∷ 4096 ∷ 1 ∷ 4294967295 ∷ 65535 ∷ 16384 ∷ 16777216 ∷ [];
  request_settings = record { id = 2; value = 0 } ∷ [];
  settings_pending = true;
  event_handler = true;
}

fresh-IsWithin : IsWithin fresh
fresh-IsWithin = (
  (omega arith, omega arith),
  (
    (omega arith, omega arith),
    (
      (omega arith, omega arith),
      (
        (omega arith, omega arith),
        (
          (omega arith, omega arith),
          ((omega arith, omega arith), ((omega arith, omega arith), tt)),
        ),
      ),
    ),
  ),
)

abbrev settings_of : List SettingsEntry → ℕ → ℕ → SettingsFrame
settings_of entries len f = record {
  hdr = record { length = len; type = 4; flags = f; reserved = 0; stream_id = 0 };
  settings = entries;
}

-- A list size that is clamped, and a table size.
abbrev large_list : SettingsFrame
large_list =
    settings_of (record { id = 6; value = 16777300 } ∷ record { id = 1; value = 100 } ∷ []) 12 0

received_settings-IsWithin_example : IsWithin (received_settings fresh large_list).0
received_settings-IsWithin_example = received_settings-IsWithin fresh large_list fresh-IsWithin

clamps :
    (received_settings fresh large_list).1
    ≡ compressor_set_max_table_size 100
      ∷ on_settings
          (record { id = 6; value = 16777216 } ∷ record { id = 1; value = 100 } ∷ [])
          false
      ∷ send_settings_ack
      ∷ []
unfolding received_settings receive_entries receive_entry store out_of_range clamped has_flag
clamps = refl

refuses_push_of_two :
    (received_settings fresh (settings_of (record { id = 2; value = 2 } ∷ []) 6 0)).1
    ≡ send_goaway 1 ∷ []
unfolding received_settings receive_entries receive_entry out_of_range has_flag
refuses_push_of_two = refl

acknowledged_takes_effect :
    get_elem? ((received_settings fresh (settings_of [] 0 1)).0).local_settings 2 ≡ some 0
unfolding received_settings apply_requested has_flag
acknowledged_takes_effect = refl
