-- ===== src/Settings/Durations.antt =====
-- Durations in JSON: `Duration` of internal/config/config.go.
use gmaildigest_go.Prelude.{◌≡◌, Option, none, some}
use gmaildigest_go.Prelude.Int.{ℤ}
use gmaildigest_go.Prelude.Text.{Text}

-- What `json.Unmarshal` gives for a value: a number, a string, or anything else.
pub data JsonValue (F : Type 0) : Type 0 where
  number : F → JsonValue F
  text : Text → JsonValue F
  other : JsonValue F

-- What the program uses of `encoding/json` and `time`, with the floating-point numbers `F`.
pub record DurationJson (F : Type 0) : Type 0 where
  pub decode : Text → Option (JsonValue F)
  pub encode_text : Text → Option Text
  pub of_float : F → ℤ
  pub parse_duration : Text → Option ℤ
  pub show_duration : ℤ → Text
  -- A string that is encoded is decoded, and a duration is read back as it is printed.
  pub decode-encode_text : (s b : Text) → encode_text s ≡ some b → decode b ≡ some (text s)
  pub parse-show : (d : ℤ) → parse_duration (show_duration d) ≡ some d

module _ {F : Type 0} (j : DurationJson F) where
  abbrev pub duration_of : Option (JsonValue F) → Option ℤ
  duration_of none = none
  duration_of (some (number f)) = some (j.of_float f)
  duration_of (some (text s)) = j.parse_duration s
  duration_of (some other) = none

  -- `UnmarshalJSON`; none is an error.
  unfoldable pub unmarshal_json : Text → Option ℤ
  unmarshal_json b = duration_of (j.decode b)

  -- `MarshalJSON`.
  unfoldable pub marshal_json : ℤ → Option Text
  marshal_json d = j.encode_text (j.show_duration d)

  -- What is written is read back.
  pub unmarshal_json-marshal_json :
      (d : ℤ) (b : Text) → marshal_json d ≡ some b → unmarshal_json b ≡ some d
  unfolding marshal_json unmarshal_json
  unmarshal_json-marshal_json d b h =
      rw (j.decode-encode_text (j.show_duration d) b h) (j.parse-show d)
