-- ===== src/Workflow/Validators.antt =====
-- `src/myloware/workflows/validators.py`: the validators that a project's configuration names. The
-- registry is an association list; how a list of texts is printed is a parameter.
use mylo_ware.Common.{
  String, ◌<>◌, ◌≡◌, refl, ◌↔◌, Bool, true, false, Option, none, some, List, [], ◌∷◌, str_eq,
  eq_iff, if◌then◌else◌, select, arith, All, any, Bool-cases, inl, inr,
}
use mylo_ware.Common.Text.{codes, codes_eq, lower}

-- Whether the objects are valid, and the error message.
abbrev pub Verdict : Type 0
Verdict = Bool × Option String

abbrev pub Validator : Type 0
Validator = List String → Verdict

abbrev pub zodiac_signs : List String
zodiac_signs =
    "aries" ∷ "taurus" ∷ "gemini" ∷ "cancer" ∷ "leo" ∷ "virgo" ∷ "libra" ∷ "scorpio" ∷ "sagittarius"
    ∷ "capricorn" ∷ "aquarius" ∷ "pisces" ∷ []

-- `o.lower() in ZODIAC_SIGNS`
unfoldable pub is_sign : String → Bool
unfolding lower
is_sign o = any (λ s. codes_eq (lower (codes o)) (codes s)) zodiac_signs

abbrev pub message : (List String → String) → List String → String
message print invalid =
    "INVALID OBJECTS: "
    <> print invalid
    <> " are zodiac SIGNS, not creative object names! "
    <> "Objects should be creative names like 'Flame Spirit', 'Earth Golem', etc. "
    <> "Check the 'Objects (in order)' section of your input and use those exact values."

abbrev refuse : (List String → String) → List String → Verdict
refuse print [] = (true, none)
refuse print (o ∷ os) = (false, some (message print (o ∷ os)))

unfoldable pub aismr_object_validator : (List String → String) → Validator
unfolding select is_sign
aismr_object_validator print objects = refuse print (select is_sign objects)

abbrev pub no_validation : Validator
no_validation objects = (true, none)

abbrev pub Registry : Type 0
Registry = List (String × Validator)

-- The registry when the module is loaded.
abbrev pub validators : (List String → String) → Registry
validators print = ("aismr_objects", aismr_object_validator print) ∷ ("none", no_validation) ∷ []

unfoldable pub lookup : String → Registry → Option Validator
lookup name [] = none
lookup name (e ∷ rest) = if str_eq e.0 name then some e.1 else lookup name rest

unfoldable pub get_validator : String → Registry → Validator
unfolding lookup
get_validator name registry = elim (lookup name registry) [ none ↦ no_validation | some v ↦ v ]

unfoldable pub validate_objects : Option String → List String → Registry → Verdict
unfolding get_validator
validate_objects none objects registry = (true, none)
validate_objects (some name) objects registry =
    if str_eq name "" then (true, none) else get_validator name registry objects

unfoldable pub register_validator : String → Validator → Registry → Registry
register_validator name v [] = (name, v) ∷ []
register_validator name v (e ∷ rest) =
    let later = register_validator name v rest in
    if str_eq e.0 name then (name, v) ∷ rest else e ∷ later

lookup-register :
    (name other : String) (v : Validator) (registry : Registry)
    → lookup other (register_validator name v registry)
      ≡ (if str_eq name other then some v else lookup other registry)
unfolding lookup register_validator
lookup-register name other v [] = ground arith
lookup-register name other v (e ∷ rest) =
    ground (
      arith,
      eq_iff name other,
      eq_iff e.0 name,
      eq_iff e.0 other,
      lookup-register name other v rest,
    )

select-none :
    (objects : List String) → All (λ o. is_sign o ≡ false) objects → select is_sign objects ≡ []
unfolding select
select-none [] h = refl
select-none (o ∷ os) h = rw h.0 (select-none os h.1)

none-select :
    (objects : List String) → select is_sign objects ≡ [] → All (λ o. is_sign o ≡ false) objects
unfolding select
none-select [] h = tt
none-select (o ∷ os) h = elim (Bool-cases (is_sign o)) [
  | inl e ↦ absurd (let k : o ∷ select is_sign os ≡ [] = rw e at h in cc)
  | inr e ↦ (e, none-select os (rw e at h))
]

refuse-passes :
    (print : List String → String) (invalid : List String)
    → ((refuse print invalid).0 ≡ true) ↔ (invalid ≡ [])
refuse-passes print [] = (λ h. refl, λ h. refl)
refuse-passes print (o ∷ os) = (λ h. absurd (cc), λ h. absurd (cc))

accepts_iff :
    (print : List String → String) (objects : List String)
    → ((aismr_object_validator print objects).0 ≡ true) ↔ All (λ o. is_sign o ≡ false) objects
unfolding aismr_object_validator
accepts_iff print objects =
    let (there, back) = refuse-passes print (select is_sign objects) in
    (λ h. none-select objects (there h), λ h. back (select-none objects h))

get-found :
    (name : String) {v : Validator} (registry : Registry)
    → lookup name registry ≡ some v
    → get_validator name registry ≡ v
get-found name registry h = unfold get_validator in rw (h, get_validator) refl

get-register :
    (name other : String) (v : Validator) (registry : Registry)
    → get_validator other (register_validator name v registry)
      ≡ (if str_eq name other then v else get_validator other registry)
get-register name other v registry = elim (Bool-cases (str_eq name other)) [
  | inl e ↦
      unfold get_validator in rw (lookup-register name other v registry, e, get_validator) refl
  | inr e ↦
      unfold get_validator in rw (lookup-register name other v registry, e, get_validator) refl
]

-- The validator of AISMR accepts a list of objects exactly where none of them is a zodiac sign in any
-- letter case, as long as no other validator is registered under its name. After a validator is
-- registered under a name, objects that are validated by that name get its verdict, objects that are
-- validated by another name get the verdict they had before, and without a name or with an empty one
-- every list is accepted.
pub validate_objects_lem :
    (print : List String → String) (name other : String) (v : Validator) (registry : Registry)
    (objects : List String)
    → (lookup "aismr_objects" registry ≡ some (aismr_object_validator print))
    → (((validate_objects (some "aismr_objects") objects registry).0 ≡ true)
        ↔ All (λ o. is_sign o ≡ false) objects)
      × (validate_objects (some other) objects (register_validator name v registry) ≡ (
          if str_eq other ""
          then (true, none)
          else if str_eq name other
          then v objects
          else validate_objects (some other) objects registry))
      × (validate_objects none objects (register_validator name v registry) ≡ (true, none))
unfolding validate_objects
validate_objects_lem print name other v registry objects h = (
  rw (get-found "aismr_objects" registry h, validate_objects) (accepts_iff print objects),
  elim (Bool-cases (str_eq name other)) [
    | inl e ↦ rw (get-register name other v registry, e, validate_objects) refl
    | inr e ↦ elim (Bool-cases (str_eq other "")) [
      | inl z ↦ rw (get-register name other v registry, e, z, validate_objects) refl
      | inr z ↦ rw (get-register name other v registry, e, z, validate_objects) refl
    ]
  ],
  refl,
)
