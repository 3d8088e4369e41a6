-- ===== src/Tests/Validators.antt =====
-- Validators of src/myloware/workflows/validators.py on short lists of objects.
use mylo_ware.Common.{
  String, ◌≡◌, refl, ◌↔◌, true, false, none, some, List, [], ◌∷◌, if◌then◌else◌, str_eq, All,
}
use mylo_ware.Common.Text.{lower_code}
use mylo_ware.Workflow.Validators.{
  Validator, validators, is_sign, lookup, aismr_object_validator, validate_objects,
  register_validator, validate_objects_lem,
}

abbrev first_of : List String → String
first_of [] = "[]"
first_of (s ∷ rest) = s

abbrev needs_objects : Validator
needs_objects [] = (false, some "no objects")
needs_objects (s ∷ rest) = (true, none)

abbrev objects : List String
objects = "Flame Spirit" ∷ "ARIES" ∷ []

validate_objects_lem_example :
    (((validate_objects (some "aismr_objects") objects (validators first_of)).0 ≡ true)
      ↔ All (λ o. is_sign o ≡ false) objects)
    × (validate_objects
          (some "some")
          objects
          (register_validator "some" needs_objects (validators first_of))
        ≡ (if str_eq "some" ""
            then (true, none)
            else if str_eq "some" "some"
            then needs_objects objects
            else validate_objects (some "some") objects (validators first_of)))
    × (validate_objects none objects (register_validator "some" needs_objects (validators first_of))
        ≡ (true, none))
validate_objects_lem_example =
    validate_objects_lem first_of "some" "some" needs_objects (validators first_of) objects
      (unfold lookup in refl)

sign_refused : (validate_objects (some "aismr_objects") objects (validators first_of)).0 ≡ false
unfolding validate_objects aismr_object_validator lower_code
sign_refused = refl
