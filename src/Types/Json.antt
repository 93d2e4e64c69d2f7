-- ===== src/Types/Json.antt =====
-- The values of JSON, which the parameters of a tool call hold, and what JavaScript's `String` makes of
-- them. A number is given by its decimal text.
use secure_openclaw_poc.Common.{
  List, ◌++◌, Bool, Option, Text, [], codes, if◌then◌else◌, false, none, some, text_eq, true, ◌∷◌,
}

mutual
  pub data Json : Type 0 where
    null : Json
    boolean : Bool → Json
    number : Text → Json
    text : Text → Json
    array : Items → Json
    object : Fields → Json

  pub data Items : Type 0 where
    none_left : Items
    item : Json → Items → Items

  pub data Fields : Type 0 where
    no_field : Fields
    field : (name : Text) → Json → Fields → Fields

-- `Record<string, unknown>`, without the keys that are there twice.
abbrev pub Parameters : Type 0
Parameters = List (Text × Json)

-- `parameters[key]`.
abbrev pub lookup : Text → Parameters → Option Json
lookup key [] = none
lookup key (p ∷ ps) = let rest = lookup key ps in if text_eq p.0 key then some p.1 else rest

-- `typeof value === "string" ? value : ""`.
abbrev pub text_or_empty : Option Json → Text
text_or_empty (some (text t)) = t
text_or_empty _ = []

-- `Array.isArray(value) && value.length > 0`.
abbrev pub is_full_array : Option Json → Bool
is_full_array (some (array (item v vs))) = true
is_full_array _ = false

unfoldable mutual
  pub json_string : Json → Text
  json_string null = codes "null"
  json_string (boolean true) = codes "true"
  json_string (boolean false) = codes "false"
  json_string (number t) = t
  json_string (text t) = t
  json_string (array vs) = joined vs
  json_string (object fs) = codes "[object Object]"

  -- `join(",")`, where a null is empty.
  joined : Items → Text
  joined none_left = []
  joined (item v none_left) = element v
  joined (item v (item w vs)) = element v ++ 44 ∷ joined (item w vs)

  element : Json → Text
  element null = []
  element (boolean true) = codes "true"
  element (boolean false) = codes "false"
  element (number t) = t
  element (text t) = t
  element (array vs) = joined vs
  element (object fs) = codes "[object Object]"

-- `String(parameters[key])`.
unfoldable pub to_string : Option Json → Text
unfolding json_string
to_string none = codes "undefined"
to_string (some v) = json_string v
