-- ===== src/Workflow/Overlays/Laws.antt =====
-- `_aismr_extractor` of src/myloware/workflows/extractors.py against a search of the ideas.
use mylo_ware.Common.{
  ℕ, suc, String, ◌≡◌, refl, ◌∙◌, Bool, true, false, Option, none, some, List, [], ◌∷◌, All,
  All-map_fun, str_eq, if◌then◌else◌,
}
use mylo_ware.Common.Json
use mylo_ware.Common.Json.{Json, Items, Fields, is_text, get-put}
use mylo_ware.Workflow.Overlays.{
  Overlay, overlay, signs, name_in, object_name, overlays_from, extract_overlays_aismr, extract,
  by_sign, aismr_extractor, key_of, unhashable, Key,
}

-- Whether a structured idea is a dictionary whose sign can be a key.
abbrev keyed : Key → Bool
keyed unhashable = false
keyed _ = true

unfoldable pub is_idea : Json → Bool
unfolding Json.get
is_idea (Json.obj fs) = keyed (key_of (Json.get "sign" fs))
is_idea _ = false

unfoldable pub AllIdeas : Items → Type 0
unfolding is_idea
AllIdeas Items.nil = Unit
AllIdeas (Items.cons x rest) = (is_idea x ≡ true) × AllIdeas rest

abbrev later_or : Option Fields → Bool → Fields → Option Fields
later_or (some o) b fs = some o
later_or none b fs = if b then some fs else none

-- The last idea of a sign.
unfoldable pub last_idea : String → Items → Option Fields
unfolding is_text
last_idea s Items.nil = none
last_idea s (Items.cons (Json.obj fs) rest) = later_or (last_idea s rest) (is_text "sign" s fs) fs
last_idea s (Items.cons _ rest) = last_idea s rest

abbrev name_of : String → Option Fields → Json
name_of sign none = Json.str sign
name_of sign (some fs) = name_in sign fs

-- What the overlays are to be: one for each sign, with the object of its last idea.
unfoldable pub overlays_of : ℕ → List String → Items → List Overlay
unfolding last_idea
overlays_of i [] items = []
overlays_of i (s ∷ rest) items =
    overlay i s (name_of s (last_idea s items)) ∷ overlays_of (suc i) rest items

abbrev entry_or : Option Fields → Option Json → Option Json
entry_or none before = before
entry_or (some fs) before = some (Json.obj fs)

-- The dictionary has for each sign its last idea, and what was there before where there is none.
abbrev Collected : Items → Fields → Type 0
Collected items objects =
    (d : Fields) × (by_sign items objects ≡ some d)
    × ((s : String)
        → str_eq "" s ≡ false
        → Json.get s d ≡ entry_or (last_idea s items) (Json.get s objects))

entry-later :
    (l : Option Fields) (b : Bool) (fs : Fields) (before : Option Json)
    → entry_or l (if b then some (Json.obj fs) else before) ≡ entry_or (later_or l b fs) before
entry-later (some o) b fs before = refl
entry-later none true fs before = refl
entry-later none false fs before = refl

step_with :
    (fs : Fields) (rest : Items) (objects objects' : Fields)
    → by_sign (Items.cons (Json.obj fs) rest) objects ≡ by_sign rest objects'
    → ((s : String)
        → str_eq "" s ≡ false
        → Json.get s objects'
          ≡ (if is_text "sign" s fs then some (Json.obj fs) else Json.get s objects))
    → Collected rest objects'
    → Collected (Items.cons (Json.obj fs) rest) objects
unfolding last_idea
step_with fs rest objects objects' same entries (d, found, gets) = (
  d,
  same ∙ found,
  λ s ne.
      gets s ne
      ∙ rw (entries s ne)
          (entry-later (last_idea s rest) (is_text "sign" s fs) fs (Json.get s objects)),
)

by_sign_step :
    (fs : Fields) (rest : Items) (objects : Fields) (j : Option Json)
    → Json.get "sign" fs ≡ j
    → keyed (key_of j) ≡ true
    → ((o : Fields) → Collected rest o)
    → Collected (Items.cons (Json.obj fs) rest) objects
unfolding by_sign is_text
by_sign_step fs rest objects none e k ih =
    let o = Json.put "" (Json.obj fs) objects in
    step_with fs rest objects o (rw (e, by_sign) refl)
      (λ s ne. rw (e, is_text) (rw (get-put, ne) refl)) (ih o)
by_sign_step fs rest objects (some (Json.str t)) e k ih =
    let o = Json.put t (Json.obj fs) objects in
    step_with fs rest objects o (rw (e, by_sign) refl)
      (λ s ne. rw (e, is_text) (get-put t s (Json.obj fs) objects)) (ih o)
by_sign_step fs rest objects (some (Json.null)) e k ih =
    step_with fs rest objects objects (rw (e, by_sign) refl) (λ s ne. rw (e, is_text) refl)
      (ih objects)
by_sign_step fs rest objects (some (Json.bool b)) e k ih =
    step_with fs rest objects objects (rw (e, by_sign) refl) (λ s ne. rw (e, is_text) refl)
      (ih objects)
by_sign_step fs rest objects (some (Json.num n)) e k ih =
    step_with fs rest objects objects (rw (e, by_sign) refl) (λ s ne. rw (e, is_text) refl)
      (ih objects)
by_sign_step fs rest objects (some (Json.arr xs)) e k ih = absurd (cc)
by_sign_step fs rest objects (some (Json.obj o)) e k ih = absurd (cc)

by_sign_lem : (items : Items) (objects : Fields) → AllIdeas items → Collected items objects
unfolding by_sign AllIdeas is_idea last_idea
by_sign_lem Items.nil objects h = (objects, refl, λ s ne. refl)
by_sign_lem (Items.cons (Json.obj fs) rest) objects h =
    by_sign_step fs rest objects (Json.get "sign" fs) refl h.0 (λ o. by_sign_lem rest o h.1)
by_sign_lem (Items.cons Json.null rest) objects h = absurd (cc (h.0))
by_sign_lem (Items.cons (Json.bool b) rest) objects h = absurd (cc (h.0))
by_sign_lem (Items.cons (Json.num n) rest) objects h = absurd (cc (h.0))
by_sign_lem (Items.cons (Json.str s) rest) objects h = absurd (cc (h.0))
by_sign_lem (Items.cons (Json.arr xs) rest) objects h = absurd (cc (h.0))

name_of-object :
    (sign : String) (l : Option Fields) → object_name sign (entry_or l none) ≡ some (name_of sign l)
name_of-object sign none = refl
name_of-object sign (some fs) = refl

overlays_from_lem :
    (i : ℕ) (names : List String) (items : Items) (d : Fields)
    → All (λ s. Json.get s d ≡ entry_or (last_idea s items) none) names
    → overlays_from i names d ≡ some (overlays_of i names items)
unfolding overlays_from overlays_of
overlays_from_lem i [] items d h = refl
overlays_from_lem i (s ∷ names) items d h =
    rw (h.0, name_of-object s (last_idea s items), overlays_from_lem (suc i) names items d h.1) refl

signs-NotEmpty : All (λ s. str_eq "" s ≡ false) signs
signs-NotEmpty = (
  refl,
  (refl, (refl, (refl, (refl, (refl, (refl, (refl, (refl, (refl, (refl, (refl, tt))))))))))),
)

extract_found :
    (d : Fields) (items : Items)
    → ((s : String) → str_eq "" s ≡ false → Json.get s d ≡ entry_or (last_idea s items) none)
    → extract (some d) ≡ some (some (overlays_of 0 signs items))
unfolding extract_overlays_aismr
extract_found d items gets =
    let sources =
      All-map_fun (λ s. str_eq "" s ≡ false) (λ s. Json.get s d ≡ entry_or (last_idea s items) none)
        signs gets signs-NotEmpty in
    let same : extract_overlays_aismr d ≡ some (overlays_of 0 signs items) =
      overlays_from_lem 0 signs items d sources in
    rw (same, extract) refl

-- Where the structured ideation has a list of ideas, each a dictionary whose sign can be a key, the
-- extractor does not raise: it returns one overlay for each sign, in the order of the zodiac, six
-- seconds apart and eight seconds long, which shows the object of the last idea of that sign, or the
-- sign's own name where no idea has that sign or its last idea names no object.
pub aismr_extractor_lem :
    (structured : Fields) (items : Items)
    → Json.get "ideas" structured ≡ some (Json.arr items)
    → AllIdeas items
    → aismr_extractor (some structured) ≡ some (some (overlays_of 0 signs items))
unfolding aismr_extractor Json.get
aismr_extractor_lem Fields.end items e h = absurd (cc)
aismr_extractor_lem (Fields.field k v fs) items e h =
    let (d, same, gets) = by_sign_lem items Fields.end h in
    rw (e, same) (extract_found d items gets)
