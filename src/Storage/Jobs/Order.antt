-- ===== src/Storage/Jobs/Order.antt =====
-- `next_job`: the row that the ORDER BY ... LIMIT 1 of a claim returns.
use mathlib.Core.Bool.{false≢true}
use mylo_ware.Common.{
  Bool, ◌≡◌, refl, sym, ◌∙◌, inl, inr, true, false, Option, none, some, List, [], ◌∷◌, arith,
  Bool-cases, All, Any,
}
use mylo_ware.Storage.Jobs.{Job, before, earlier, next_job}

-- `before` is a strict weak order: "not before" passes on.
pub not-before_trans : (a b c : Job) → before a b ≡ false → before b c ≡ false → before a c ≡ false
unfolding before
not-before_trans a b c h k = ground arith

pub not-before_refl : (a : Job) → before a a ≡ false
unfolding before
not-before_refl a = ground arith

pub before_asym : (a b : Job) → before a b ≡ true → before b a ≡ false
unfolding before
before_asym a b h = ground arith

-- `j` passes the test, and no row that passes comes before it.
abbrev pub NotBefore : (Job → Bool) → Job → Job → Type 0
NotBefore test j k = test k ≡ true → before k j ≡ false

abbrev pub IsNext : (Job → Bool) → List Job → Job → Type 0
IsNext test js j = (test j ≡ true) × All (NotBefore test j) js × Any (λ k. k ≡ j) js

lower_bound :
    (test : Job → Bool) (a b : Job) (js : List Job)
    → before b a ≡ false
    → All (NotBefore test b) js
    → All (NotBefore test a) js
lower_bound test a b [] h all = tt
lower_bound test a b (k ∷ js) h all =
    (λ p. not-before_trans k b a (all.0 p) h, lower_bound test a b js h all.1)

untested_bound :
    (test : Job → Bool) (a : Job) (js : List Job)
    → All (λ k. test k ≡ false) js
    → All (NotBefore test a) js
untested_bound test a [] all = tt
untested_bound test a (k ∷ js) all =
    (λ p. absurd (false≢true (sym all.0 ∙ p)), untested_bound test a js all.1)

-- What a claim's SELECT may return.
abbrev pub Outcome : (Job → Bool) → List Job → Option Job → Type 0
Outcome test js none = All (λ k. test k ≡ false) js
Outcome test js (some j) = IsNext test js j

earlier_lem :
    (test : Job → Bool) (j : Job) (js : List Job) (o : Option Job)
    → Outcome test js o
    → Outcome test (j ∷ js) (earlier test j o)
unfolding earlier
earlier_lem test j js none h = elim (Bool-cases (test j)) [
  | inl e ↦ rw e ((e, (λ p. not-before_refl j, untested_bound test j js h), inl refl))
  | inr e ↦ rw e (e, h)
]
earlier_lem test j js (some k) h = elim (Bool-cases (test j)) [
  | inr e ↦ rw e (h.0, (λ p. absurd (false≢true (sym e ∙ p)), h.1), inr h.2)
  | inl e ↦ elim (Bool-cases (before k j)) [
    | inl b ↦ rw (e, b) (h.0, (λ p. before_asym k j b, h.1), inr h.2)
    | inr b ↦ rw (e, b) (e, (λ p. not-before_refl j, lower_bound test j k js b h.1), inl refl)
  ]
]

-- The SELECT returns a least row of those that pass, and none only if none passes.
pub next_job_lem : (test : Job → Bool) (js : List Job) → Outcome test js (next_job test js)
unfolding next_job
next_job_lem test [] = tt
next_job_lem test (j ∷ js) = earlier_lem test j js (next_job test js) (next_job_lem test js)
