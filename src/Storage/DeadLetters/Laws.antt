-- ===== src/Storage/DeadLetters/Laws.antt =====
-- What the dead letter queue shows of a letter.
use mathlib.Core.Path.{subst}
use mylo_ware.Common.{
  ℕ, String, ◌≡◌, refl, Bool, true, false, Option, some, List, [], ◌∷◌, arith, ◌==◌, All,
  All-sort_by, All-select_of, ◌&&◌, Any, sym, inl, inr, select, Bool-cases, Any-sort_by,
  if◌then◌else◌,
}
use mylo_ware.Common.Rows.{update_where}
use mylo_ware.Storage.DeadLetters.{
  DeadLetter, has_id, is_unresolved, from_source, get_unresolved, mark_resolved,
}

-- A letter that `get_unresolved` may still show when the letter `i` has been resolved.
abbrev pub IsShown : ℕ → Option String → DeadLetter → Type 0
IsShown i source d =
    ((d.id == i) ≡ false) × (is_unresolved d ≡ true) × (from_source source d ≡ true)

resolved_rows :
    (i now : ℕ) (source : Option String) (letters : List DeadLetter)
    → All
        (λ d. (is_unresolved d && from_source source d) ≡ true → IsShown i source d)
        (mark_resolved i now letters)
unfolding mark_resolved update_where
resolved_rows i now source [] = tt
resolved_rows i now source (d ∷ letters) =
    (λ h. ground (arith, h), resolved_rows i now source letters)

keep_rest :
    (p : DeadLetter → Bool) (x : DeadLetter) (xs : List DeadLetter) (d : DeadLetter)
    → Any (λ k. k ≡ d) (select p xs)
    → Any (λ k. k ≡ d) (select p (x ∷ xs))
unfolding select
keep_rest p x xs d h = elim (Bool-cases (p x)) [ inl e ↦ rw e (inr h) | inr e ↦ rw e h ]

-- A letter that may be shown stays in the table, and passes the clause.
shown_rows :
    (i now : ℕ) (source : Option String) (letters : List DeadLetter) (d : DeadLetter)
    → IsShown i source d
    → Any (λ k. k ≡ d) letters
    → Any
        (λ k. k ≡ d)
        (select (λ d. is_unresolved d && from_source source d) (mark_resolved i now letters))
unfolding mark_resolved update_where select
shown_rows i now source [] d h any = elim any [ ]
shown_rows i now source (k ∷ letters) d h (inl p) =
    subst
      (λ x.
        Any (λ k. k ≡ d)
          (select (λ d. is_unresolved d && from_source source d)
            (mark_resolved i now (x ∷ letters))))
      (sym p) (rw (h.0, h.1, h.2) (inl refl))
shown_rows i now source (k ∷ letters) d h (inr any) =
    keep_rest (λ d. is_unresolved d && from_source source d)
      (if has_id i k then record k { resolved_at = some now } else k) (mark_resolved i now letters)
      d (shown_rows i now source letters d h any)

-- Once a letter is resolved, the queue shows other letters only, not resolved and of the source that
-- was asked for; and it shows each such letter of the table.
pub get_unresolved-mark_resolved :
    (i now : ℕ) (source : Option String) (letters : List DeadLetter) (d : DeadLetter)
    → IsShown i source d
    → Any (λ k. k ≡ d) letters
    → All (IsShown i source) (get_unresolved source (mark_resolved i now letters))
      × Any (λ k. k ≡ d) (get_unresolved source (mark_resolved i now letters))
unfolding get_unresolved
get_unresolved-mark_resolved i now source letters d h any = (
  All-sort_by (IsShown i source) _ _ (
      All-select_of (IsShown i source) (λ d. is_unresolved d && from_source source d)
        (mark_resolved i now letters) (resolved_rows i now source letters)),
  Any-sort_by (λ k. k ≡ d) _ _ (shown_rows i now source letters d h any),
)
