-- ===== src/Arguments/Parsed.antt =====
-- What arguments that are accepted make of a configuration.
use podbay_camera_firmware.Prelude.{
  ◌==◌, ◌≡◌, Bool, true, false, Option, none, some, List, [], ◌∷◌, ok, if◌then◌else◌,
}
use Prim.Native.String.{String}
use podbay_camera_firmware.Config.{Config}
use podbay_camera_firmware.Arguments.{
  Setting, Argument, setting, native_mode, help, unknown, argument_of,
}
use podbay_camera_firmware.Arguments.Fields.{reading, field, place}

-- The later of two texts, where there is one.
abbrev later : Option String → Option String → Option String
later (some text) before = some text
later none before = before

-- The text behind the last mention of an option, and whether the native mode is mentioned.
unfoldable pub last_value : Setting → List String → Option String
last_value s [] = none
last_value s (name ∷ []) = none
last_value s (name ∷ text ∷ rest) =
    let after = last_value s rest in
    let beside = last_value s (text ∷ rest) in
    elim (argument_of name) [
      | setting t ↦ later after (if place s == place t then some text else none)
      | native_mode ↦ beside
      | help ↦ none
      | unknown ↦ none
    ]

abbrev is_native : Argument → Bool
is_native (setting s) = false
is_native native_mode = true
is_native help = false
is_native unknown = false

unfoldable pub mentions_native : List String → Bool
mentions_native [] = false
mentions_native (name ∷ []) = is_native (argument_of name)
mentions_native (name ∷ text ∷ rest) =
    let after = mentions_native rest in
    elim (argument_of name) [
      | setting t ↦ after
      | native_mode ↦ true
      | help ↦ false
      | unknown ↦ false
    ]

-- An option that is mentioned has the value that its text means; another one keeps its value.
unfoldable pub Took : Option String → Setting → Config → Config → Type 0
Took none s c c' = field s c' ≡ field s c
Took (some text) s c c' = reading s text ≡ ok (field s c')

abbrev pub SameRest : Config → Config → Type 0
SameRest c c' = (c'.sensor_scale ≡ c.sensor_scale) × (c'.pixel_format ≡ c.pixel_format)

-- What the arguments make of a configuration.
pub record Parsed (args : List String) (c c' : Config) : Type 0 where
  pub each : (s : Setting) → Took (last_value s args) s c c'
  pub mode : c'.direct_full_raw ≡ (if mentions_native args then false else c.direct_full_raw)
  pub same_rest : SameRest c c'
