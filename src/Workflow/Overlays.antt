-- ===== src/Workflow/Overlays.antt =====
-- The overlays of AISMR videos: `extract_overlays_aismr` of src/myloware/workflows/parsers.py, and
-- `_aismr_extractor` of src/myloware/workflows/extractors.py.
pub mod Laws
use mylo_ware.Common.{
  ℕ, suc, ◌+◌, ◌*◌, String, ◌≡◌, refl, Bool, true, false, ◌&&◌, Option, none, some, List, [], ◌∷◌,
  str_eq, eq_iff, if◌then◌else◌, arith, Bool-cases, Option-cases, inl, inr, map,
}
use mylo_ware.Common.Json
use mylo_ware.Common.Json.{Json, Items, Fields}

pub record Overlay : Type 0 where
  pub identifier : String
  pub start_s : ℕ
  pub end_s : ℕ
  pub text : Json
  pub voice_over : Option String

abbrev pub signs : List String
signs =
    "Aries" ∷ "Taurus" ∷ "Gemini" ∷ "Cancer" ∷ "Leo" ∷ "Virgo" ∷ "Libra" ∷ "Scorpio" ∷ "Sagittarius"
    ∷ "Capricorn" ∷ "Aquarius" ∷ "Pisces" ∷ []

-- The name of a sign's object; `none` is the AttributeError of an entry that is no dictionary.
abbrev pub name_in : String → Fields → Json
name_in sign fs = elim (Json.get "object" fs) [ none ↦ Json.str sign | some v ↦ v ]

abbrev pub object_name : String → Option Json → Option Json
object_name sign none = some (Json.str sign)
object_name sign (some (Json.obj fs)) = some (name_in sign fs)
object_name sign (some _) = none

abbrev pub overlay : ℕ → String → Json → Overlay
overlay i sign name = record {
  identifier = sign;
  start_s = i * 6;
  end_s = i * 6 + 8;
  text = name;
  voice_over = none;
}

abbrev pub and_then : Option Overlay → Option (List Overlay) → Option (List Overlay)
and_then none rest = none
and_then (some o) none = none
and_then (some o) (some rest) = some (o ∷ rest)

unfoldable pub overlays_from : ℕ → List String → Fields → Option (List Overlay)
unfolding Json.get
overlays_from i [] objects = some []
overlays_from i (sign ∷ rest) objects =
    and_then
      (elim (object_name sign (Json.get sign objects)) [
        | none ↦ none
        | some name ↦ some (overlay i sign name)
      ])
      (overlays_from (suc i) rest objects)

unfoldable pub extract_overlays_aismr : Fields → Option (List Overlay)
unfolding overlays_from
extract_overlays_aismr objects = overlays_from 0 signs objects

-- `item.get("sign", "")` as a key of a dictionary.
pub data Key : Type 0 where
  text_key : String → Key
  -- A key that no sign of the table equals.
  other_key : Key
  -- TypeError: a list or a dictionary is no key.
  unhashable : Key

abbrev pub key_of : Option Json → Key
key_of none = text_key ""
key_of (some (Json.str s)) = text_key s
key_of (some (Json.arr xs)) = unhashable
key_of (some (Json.obj fs)) = unhashable
key_of (some _) = other_key

-- `{item.get("sign", ""): item for item in ideas}`, added to `objects`.
unfoldable pub by_sign : Items → Fields → Option Fields
unfolding Json.get Json.put
by_sign Items.nil objects = some objects
by_sign (Items.cons (Json.obj fs) rest) objects = elim (key_of (Json.get "sign" fs)) [
  | text_key s ↦ by_sign rest (Json.put s (Json.obj fs) objects)
  | other_key ↦ by_sign rest objects
  | unhashable ↦ none
]
by_sign (Items.cons _ rest) objects = none

-- The loop over `structured.get("ideas", [])`: nothing in an empty text or dictionary; otherwise the
-- keys or characters are texts, which have no `get`, and the other values cannot be looped over.
abbrev pub objects_of : Option Json → Option Fields
objects_of none = some Fields.end
objects_of (some (Json.arr items)) = by_sign items Fields.end
objects_of (some (Json.obj Fields.end)) = some Fields.end
objects_of (some (Json.str s)) = if str_eq s "" then some Fields.end else none
objects_of (some _) = none

abbrev pub extract : Option Fields → Option (Option (List Overlay))
extract none = none
extract (some objects) = elim (extract_overlays_aismr objects) [
  | none ↦ none
  | some os ↦ some (some os)
]

-- `none` is an exception, `some none` is Python's None.
unfoldable pub aismr_extractor : Option Fields → Option (Option (List Overlay))
unfolding Json.get by_sign
aismr_extractor none = some none
aismr_extractor (some Fields.end) = some none
aismr_extractor (some (Fields.field k v fs)) =
    extract (objects_of (Json.get "ideas" (Fields.field k v fs)))
