-- ===== src/Settings.antt =====
-- The settings: the table of src/http2/settings.cc, and `received_settings` of src/http2/connection.cc
-- on the part of the connection that it changes. What it calls is a list of effects.
pub mod Ranges
use libhttp.Prelude.{
  ℕ, suc, ◌%◌, Bool, true, false, not, ◌||◌, List, [], ◌∷◌, ◌++◌, Option, some, none, length,
  get_elem?, set, if◌then◌else◌, ltb, ◌==◌,
}
use libhttp.Types.{Http2ErrorCode, error_code, ack, has_flag}
use libhttp.Frame.{SettingsEntry, SettingsFrame}

pub data InvalidValueBehavior : Type 0 where
  clamp disconnect : InvalidValueBehavior

pub record SettingParameters : Type 0 where
  pub default_value : ℕ
  pub min_value : ℕ
  pub max_value : ℕ
  pub invalid_value_behavior : InvalidValueBehavior
  pub error_value : Http2ErrorCode

abbrev pub number_of_settings : ℕ
number_of_settings = 7

abbrev pub header_table_size : ℕ
header_table_size = 1

abbrev parameters : ℕ → ℕ → ℕ → InvalidValueBehavior → Http2ErrorCode → SettingParameters
parameters d lo hi b e = record {
  default_value = d;
  min_value = lo;
  max_value = hi;
  invalid_value_behavior = b;
  error_value = e;
}

abbrev pub global_settings_parameters : List SettingParameters
global_settings_parameters =
    parameters 0 0 0 clamp Http2ErrorCode.no_error
    ∷ parameters 4096 0 4294967295 clamp Http2ErrorCode.protocol_error
    ∷ parameters 1 0 1 disconnect Http2ErrorCode.protocol_error
    ∷ parameters 4294967295 0 4294967295 disconnect Http2ErrorCode.protocol_error
    ∷ parameters 65535 0 2147483647 disconnect Http2ErrorCode.flow_control_error
    ∷ parameters 16384 16384 16777215 disconnect Http2ErrorCode.protocol_error
    ∷ parameters 16777216 0 16777216 clamp Http2ErrorCode.protocol_error
    ∷ []

pub record Settings : Type 0 where
  pub local_settings : List ℕ
  pub remote_settings : List ℕ
  pub request_settings : List SettingsEntry
  pub settings_pending : Bool
  pub event_handler : Bool

pub data Effect : Type 0 where
  send_goaway : ℕ → Effect
  on_settings : List SettingsEntry → Bool → Effect
  compressor_set_max_table_size : ℕ → Effect
  send_settings_ack : Effect

pub data Received : Type 0 where
  accepted : Settings → List Effect → SettingsEntry → Received
  disconnected : ℕ → Received

-- The two conditional assignments.
unfoldable pub clamped : SettingParameters → ℕ → ℕ
clamped params value =
    let low = if ltb value params.min_value then params.min_value else value in
    if ltb params.max_value low then params.max_value else low

unfoldable pub store : Settings → ℕ → ℕ → Received
store s id value =
    accepted (record s { remote_settings = set s.remote_settings id value })
      (if id == header_table_size then compressor_set_max_table_size value ∷ [] else [])
      (record { id = id; value = value })

unfoldable pub out_of_range : Settings → SettingParameters → ℕ → ℕ → Received
out_of_range s params id value = elim (params.invalid_value_behavior) [
  | clamp ↦ store s id (clamped params value)
  | disconnect ↦ disconnected (error_code params.error_value)
]

-- One round of the loop. An identifier that the table does not have is passed over.
unfoldable pub receive_entry : Settings → SettingsEntry → Received
receive_entry s setting = elim (get_elem? global_settings_parameters setting.id) [
  | none ↦ accepted s [] setting
  | some params ↦
      if ltb setting.value params.min_value || ltb params.max_value setting.value
      then out_of_range s params setting.id setting.value
      else store s setting.id setting.value
]

abbrev pub tell : Bool → List SettingsEntry → Bool → List Effect
tell event_handler settings is_ack = if event_handler then on_settings settings is_ack ∷ [] else []

unfoldable pub receive_entries :
    List SettingsEntry → Settings → List Effect → List SettingsEntry → Settings × List Effect
receive_entries [] s effects settings_vec =
    (s, effects ++ tell s.event_handler settings_vec false ++ (send_settings_ack ∷ []))
receive_entries (e ∷ es) s effects settings_vec = elim (receive_entry s e) [
  | accepted t more stored ↦ receive_entries es t (effects ++ more) (settings_vec ++ (stored ∷ []))
  | disconnected code ↦ (s, effects ++ (send_goaway code ∷ []))
]

-- The settings that were requested take effect.
unfoldable pub apply_requested : List SettingsEntry → List ℕ → List ℕ
apply_requested [] local = local
apply_requested (e ∷ es) local =
    apply_requested es (if ltb e.id number_of_settings then set local e.id e.value else local)

unfoldable pub received_settings : Settings → SettingsFrame → Settings × List Effect
received_settings s frame =
    if not (frame.hdr.length % 6 == 0)
    then (s, send_goaway (error_code Http2ErrorCode.frame_size_error) ∷ [])
    else if not (frame.hdr.stream_id == 0)
    then (s, send_goaway (error_code Http2ErrorCode.protocol_error) ∷ [])
    else if has_flag frame.hdr.flags ack
    then (if not (frame.hdr.length == 0)
        then (s, send_goaway (error_code Http2ErrorCode.frame_size_error) ∷ [])
        else (
          record s {
            local_settings = apply_requested s.request_settings s.local_settings;
            settings_pending = false;
            request_settings = [];
          },
          tell s.event_handler [] true,
        ))
    else receive_entries frame.settings s [] []
