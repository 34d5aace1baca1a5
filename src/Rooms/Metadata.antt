-- ===== src/Rooms/Metadata.antt =====
-- The metadata of a room (src/livekit/metadata.rs). The JSON library is a parameter: `from_str` and
-- `to_string`. A map of fields is an association list; a field is a text or any other value.
pub mod Merge
use sayna.Prelude.{Bool, true, false, Option, none, some, List, [], ◌∷◌, is_empty, if◌then◌else◌}
use sayna.Prelude.Text.{Text, codes, text_eq, trim}
use sayna.Prelude.Dict.{lookup, insert}

abbrev pub auth_id_key : Text
auth_id_key = codes "auth_id"

pub data Field (V : Type 0) : Type 0 where
  string : Text → Field V
  other_field : V → Field V

abbrev pub Map : Type 0 → Type 0
Map V = List (Text × Field V)

pub data Value (V : Type 0) : Type 0 where
  object : Map V → Value V
  other_value : Value V

pub data MetadataError : Type 0 where
  invalid_json not_an_object : MetadataError
  auth_id_conflict : Text → Text → MetadataError

pub data Result (A : Type 0) : Type 0 where
  ok : A → Result A
  err : MetadataError → Result A

abbrev pub as_str : {V : Type 0} → Option (Field V) → Option Text
as_str none = none
as_str (some (string s)) = some s
as_str (some (other_field v)) = none

-- serde_json.
pub record Json (V : Type 0) : Type 0 where
  pub from_str : Text → Option (Value V)
  pub to_string : Map V → Text

module _ {V : Type 0} (json : Json V) where
  unfoldable pub parse_metadata : Text → Result (Map V)
  parse_metadata raw = if is_empty (trim raw) then ok [] else elim (json.from_str (trim raw)) [
    | none ↦ err invalid_json
    | some (object map) ↦ ok map
    | some other_value ↦ err not_an_object
  ]

  unfoldable pub get_auth_id : Text → Option Text
  unfolding parse_metadata
  get_auth_id raw = elim (parse_metadata raw) [
    | err e ↦ none
    | ok map ↦ as_str (lookup auth_id_key map)
  ]

  unfoldable pub merge_auth_id : Text → Text → Result Text
  unfolding parse_metadata
  merge_auth_id raw auth_id = elim (parse_metadata raw) [
    | err e ↦ err e
    | ok map ↦ elim (as_str (lookup auth_id_key map)) [
      | some existing ↦
          if text_eq existing auth_id
          then ok (json.to_string map)
          else err (auth_id_conflict existing auth_id)
      | none ↦ ok (json.to_string (insert auth_id_key (string auth_id) map))
    ]
  ]
