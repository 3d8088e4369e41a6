-- ===== src/Tests/Overlays.antt =====
-- The overlays of AISMR videos of src/myloware/workflows/extractors.py, for three ideas.
use mylo_ware.Common.{String, ◌≡◌, refl, some}
use mylo_ware.Common.Json
use mylo_ware.Common.Json.{Json, Items, Fields}
use mylo_ware.Workflow.Overlays.{signs, aismr_extractor}
use mylo_ware.Workflow.Overlays.Laws.{AllIdeas, is_idea, overlays_of, aismr_extractor_lem}

abbrev idea : String → String → Json
idea sign object =
    Json.obj
      (Fields.field "sign" (Json.str sign) (Fields.field "object" (Json.str object) Fields.end))

-- Two ideas have the same sign, and one has none.
abbrev ideas : Items
ideas =
    Items.cons (idea "Aries" "Flame Spirit")
      (Items.cons (idea "Aries" "Ember Fox") (Items.cons (Json.obj Fields.end) Items.nil))

abbrev ideation : Fields
ideation = Fields.field "ideas" (Json.arr ideas) Fields.end

aismr_extractor_lem_example :
    aismr_extractor (some ideation) ≡ some (some (overlays_of 0 signs ideas))
aismr_extractor_lem_example =
    aismr_extractor_lem ideation ideas (unfold Json.get in refl)
      (unfold AllIdeas is_idea Json.get in (refl, (refl, (refl, tt))))
