-- ===== src/Storage/Runs/Update.antt =====
-- What `update` and `add_artifact` do to a run and to the others.
use mathlib.Core.Bool.{false≢true}
use mylo_ware.Common.{
  sym, ap, ◌∙◌, ◌++◌, Option-cases, ℕ, String, ◌≡◌, refl, true, false, inl, inr, none, some, List,
  [], ◌∷◌, arith, ◌==◌, str_eq, if◌then◌else◌,
}
use mylo_ware.Common.Rows.{update_where, first_where-update_where, first_where-passes}
use mylo_ware.Common.Json
use mylo_ware.Common.Json.{Json, get-put}
use mylo_ware.Storage.Runs.Status.{normalize_status}
use mylo_ware.Storage.Runs.{
  Run, has_id, artifacts_dict, get, Change, status_text, change, change_all, updated,
  invalid_status, stamp, update, with_artifact, add_artifact,
}

-- The run `k` after a statement that changes the run `i`.
pub get-update_where :
    (i k : ℕ) (f : Run → Run) (runs : List Run) {r : Run}
    → ((q : Run) → (f q).id ≡ q.id)
    → get k runs ≡ some r
    → get k (update_where (has_id i) f runs) ≡ some (if k == i then f r else r)
unfolding get
get-update_where i k f runs {r} same h = ground (
  arith,
  first_where-update_where (has_id i) (has_id k) f runs (λ q. ground (arith, same q)),
  first_where-passes (has_id k) runs {r = r},
)

pub change-id : (c : Change) (r : Run) {r' : Run} → change c r ≡ some r' → r'.id ≡ r.id
unfolding change
change-id c r h = ground arith

change_all_first :
    (c : Change) (cs : List Change) (r : Run) {r' : Run}
    → change c r ≡ some r'
    → change_all (c ∷ cs) r ≡ change_all cs r'
unfolding change_all
change_all_first c cs r e = rw (e, change_all)

change_all_stop :
    (c : Change) (cs : List Change) (r : Run)
    → change c r ≡ none
    → change_all (c ∷ cs) r ≡ (r, false)
unfolding change_all
change_all_stop c cs r e = rw (e, change_all)

pub change_all-id : (cs : List Change) (r : Run) → (change_all cs r).0.id ≡ r.id
change_all-id [] r = unfold change_all in refl
change_all-id (c ∷ cs) r = elim (Option-cases (change c r)) [
  | inl e ↦ rw (change_all_stop c cs r e)
  | inr (r', e) ↦ rw (change_all_first c cs r e) (change_all-id cs r' ∙ change-id c r e)
]

-- An invalid status ends the loop: the changes before it are made, those after it are not.
change_all_invalid :
    (cs ds : List Change) (t : String) (r : Run)
    → (change_all cs r).1 ≡ true
    → normalize_status t ≡ none
    → change_all (cs ++ status_text t ∷ ds) r ≡ ((change_all cs r).0, false)
change_all_invalid [] ds t r ok bad =
    unfold change_all in change_all_stop (status_text t) ds r (unfold change in rw (bad, change))
change_all_invalid (c ∷ cs) ds t r ok bad = elim (Option-cases (change c r)) [
  | inl e ↦ absurd (false≢true (sym (ap (λ p. p.1) (change_all_stop c cs r e)) ∙ ok))
  | inr (r', e) ↦
      rw (change_all_first c (cs ++ status_text t ∷ ds) r e, change_all_first c cs r e)
        (change_all_invalid cs ds t r' (sym (ap (λ p. p.1) (change_all_first c cs r e)) ∙ ok) bad)
]

-- `update` makes the changes of its run and stamps it, and leaves every other run as it is; it
-- returns the run as stored, unless one of the changes was an invalid status.
pub update_lem :
    (i k : ℕ) (cs : List Change) (now : ℕ) (runs : List Run) {r q : Run}
    → get i runs ≡ some r
    → get k runs ≡ some q
    → (get k (update i cs now runs).1 ≡ some (if k == i then stamp now (change_all cs q).0 else q))
      × ((update i cs now runs).0 ≡ (
          if (change_all cs r).1 then updated (stamp now (change_all cs r).0) else invalid_status))
unfolding update stamp
update_lem i k cs now runs {r} {q} h hk =
    rw (h, update)
      (
        get-update_where i k (λ r. record (change_all cs r).0 { updated_at = some now }) runs
            {r = q} (λ p. change_all-id cs p) hk,
        refl,
      )

-- With an invalid status among the keyword arguments, `update` raises, and yet the run in the
-- session carries the changes that stood before it, and none of those after it.
update_invalid :
    (i : ℕ) (cs ds : List Change) (t : String) (now : ℕ) (runs : List Run) {r : Run}
    → get i runs ≡ some r
    → (change_all cs r).1 ≡ true
    → normalize_status t ≡ none
    → ((update i (cs ++ status_text t ∷ ds) now runs).0 ≡ invalid_status)
      × (get i (update i (cs ++ status_text t ∷ ds) now runs).1
          ≡ some (stamp now (change_all cs r).0))
update_invalid i cs ds t now runs {r} h ok bad =
    let (stored, result) = update_lem i i (cs ++ status_text t ∷ ds) now runs {r = r} {q = r} h h in
    let stops = change_all_invalid cs ds t r ok bad in
    (ground (arith, result, stops), ground (arith, stored, stops))

-- `add_artifact` sets its key in the run's artifacts, keeps the other keys, the rest of the run and
-- every other run, and returns the run as stored.
pub add_artifact_lem :
    (i k : ℕ) (key j : String) (value : Json) (now : ℕ) (runs : List Run) {r q : Run}
    → get i runs ≡ some r
    → get k runs ≡ some q
    → let r' = stamp now (with_artifact key value r) in
      ((add_artifact i key value now runs).0 ≡ some r')
      × (get k (add_artifact i key value now runs).1
          ≡ some (if k == i then stamp now (with_artifact key value q) else q))
      × (Json.get j (artifacts_dict r')
          ≡ (if str_eq key j then some value else Json.get j (artifacts_dict r)))
      × (r'.status ≡ r.status)
unfolding add_artifact stamp with_artifact
add_artifact_lem i k key j value now runs {r} {q} h hk =
    rw (h, add_artifact)
      (
        refl,
        get-update_where i k _ runs {r = q} (λ p. refl) hk,
        get-put key j value (artifacts_dict r),
        refl,
      )
