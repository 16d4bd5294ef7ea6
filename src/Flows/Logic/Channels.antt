-- ===== src/Flows/Logic/Channels.antt =====
-- The channels and the target flows that a bridge between flows names, from flow-builder.service.ts.
use Prim.Native.Char.{Char, code}
use nexusflow_backend.Prelude.{
  ℕ, Bool, not, ◌||◌, ◌&&◌, String, List, map, is_empty, ◌===◌, ◌==◌, leb, if◌then◌else◌, trim,
  split, distinct, select,
}
use nexusflow_backend.Value.{Value, undefined, null, show_value}
use nexusflow_backend.Platform.{Platform}

is_channel_char : ℕ → Bool
is_channel_char c =
    leb b'a' c && leb c b'z'
    || leb b'A' c && leb c b'Z'
    || leb b'0' c && leb c b'9'
    || c == b'_'
    || c == b'-'

-- `replace(/[^a-zA-Z0-9_-]/g, '-')`
dashed : String → String
dashed String.[] = String.[]
dashed (String.◌∷◌ c s) =
    (if is_channel_char (code c) then String.◌∷◌ c (dashed s) else String.◌∷◌ "-" (dashed s))

-- `replace(/-+/g, '-')`, after what follows was collapsed.
join_dash : Char → String → String
join_dash c String.[] = String.◌∷◌ c String.[]
join_dash c (String.◌∷◌ d s) =
    if code c == b'-' && code d == b'-' then String.◌∷◌ d s else String.◌∷◌ c (String.◌∷◌ d s)

collapsed : String → String
collapsed String.[] = String.[]
collapsed (String.◌∷◌ c s) = join_dash c (collapsed s)

-- `replace(/^-|-$/g, '')`
without_first_dash : String → String
without_first_dash String.[] = String.[]
without_first_dash (String.◌∷◌ c s) = if code c == b'-' then s else String.◌∷◌ c s

without_last_dash : String → String
without_last_dash String.[] = String.[]
without_last_dash (String.◌∷◌ c String.[]) =
    if code c == b'-' then String.[] else String.◌∷◌ c String.[]
without_last_dash (String.◌∷◌ c (String.◌∷◌ d s)) =
    String.◌∷◌ c (without_last_dash (String.◌∷◌ d s))

-- The end of `normalizeMqttChannel`, from a text on.
unfoldable pub channel_name : String → String
unfolding is_channel_char dashed join_dash collapsed without_first_dash without_last_dash
channel_name text =
    let channel = without_last_dash (without_first_dash (collapsed (dashed (trim text)))) in
    if is_empty channel then "default" else channel

module _ ⦃p : Platform⦄ where
  -- `String(value ?? fallback)`
  unfoldable pub text_or : String → Value → String
  text_or fallback undefined = fallback
  text_or fallback null = fallback
  text_or fallback v = show_value p.show_number v

  -- `normalizeMqttChannel`
  unfoldable pub normalize_mqtt_channel : Value → String
  unfolding text_or channel_name
  normalize_mqtt_channel value = channel_name (text_or "default" value)

  -- `parseTargetFlowIds`
  unfoldable pub parse_target_flow_ids : Value → List String
  unfolding text_or split
  parse_target_flow_ids value =
      distinct ◌===◌
        (select (λ item. not (is_empty item)) (map trim (split b',' (text_or "" value))))
