-- ===== src/Common/Rows.antt =====
-- A database table as the list of its rows. A statement addresses rows by a Boolean test, its WHERE
-- clause; the first column of every table here is a primary key, a number.
use mylo_ware.Common.Tests.{if◌then◌else◌, Bool-cases}
use mylo_ware.Common.Lists.{All, length}
use mathlib.Core.Path.{◌≡◌, refl, subst}
use mathlib.Core.Logic.{inl, inr}
use mathlib.Core.Bool.{Bool, true, false}
use mathlib.Core.Option
use mathlib.Core.Option.{Option, none, some}
use mathlib.Core.List.{List, [], ◌∷◌, ◌++◌}
use native.Mathlib.Omega.{arith}

module _ {ℓ} {R : Type ℓ} where
  -- UPDATE ... SET f WHERE test
  unfoldable pub update_where : (R → Bool) → (R → R) → List R → List R
  update_where test f [] = []
  update_where test f (r ∷ rs) = (if test r then f r else r) ∷ update_where test f rs

  -- SELECT ... WHERE test LIMIT 1
  unfoldable pub first_where : (R → Bool) → List R → Option R
  first_where test [] = none
  first_where test (r ∷ rs) = if test r then some r else first_where test rs

  pub length-update_where :
      (test : R → Bool) (f : R → R) (rs : List R) → length (update_where test f rs) ≡ length rs
  unfolding update_where
  length-update_where test f [] = refl
  length-update_where test f (r ∷ rs) = omega (arith, length-update_where test f rs)

  -- An UPDATE keeps what its change keeps of the rows that its clause selects.
  pub All-update_where :
      (P : R → Type 0) (test : R → Bool) (f : R → R) (rs : List R)
      → ((r : R) → test r ≡ true → P r → P (f r))
      → All P rs
      → All P (update_where test f rs)
  unfolding update_where
  All-update_where P test f [] keep h = tt
  All-update_where P test f (r ∷ rs) keep h = elim (Bool-cases (test r)) [
    | inl e ↦ rw e (keep r e h.0, All-update_where P test f rs keep h.1)
    | inr e ↦ rw e (h.0, All-update_where P test f rs keep h.1)
  ]

  -- The row that a SELECT returns passes its clause, and has what all rows have.
  pub first_where-passes :
      (test : R → Bool) (rs : List R) {r : R} → first_where test rs ≡ some r → test r ≡ true
  unfolding first_where
  first_where-passes test [] h = absurd (cc)
  first_where-passes test (x ∷ rs) {r} h = ground (arith, first_where-passes test rs {r = r})

  pub All-first_where :
      (P : R → Type 0) (test : R → Bool) (rs : List R) {r : R}
      → first_where test rs ≡ some r
      → All P rs
      → P r
  unfolding first_where
  All-first_where P test [] h a = absurd (cc)
  All-first_where P test (x ∷ rs) {r} h a = elim (Bool-cases (test x)) [
    | inl e ↦ (let k : some x ≡ some r = rw e at h in let q : x ≡ r = cc in subst P q a.0)
    | inr e ↦ All-first_where P test rs (rw e at h) a.1
  ]

  -- Without a row, no row passes the clause.
  pub first_where-none :
      (test : R → Bool) (rs : List R) → first_where test rs ≡ none → All (λ r. test r ≡ false) rs
  unfolding first_where
  first_where-none test [] h = tt
  first_where-none test (x ∷ rs) h = elim (Bool-cases (test x)) [
    | inl e ↦ absurd (let k : some x ≡ none = rw e at h in cc)
    | inr e ↦ (e, first_where-none test rs (rw e at h))
  ]

  -- What a SELECT by another clause sees after an UPDATE that does not move rows across it.
  pub first_where-update_where :
      (test seen : R → Bool) (f : R → R) (rs : List R)
      → ((r : R) → seen (f r) ≡ seen r)
      → first_where seen (update_where test f rs)
        ≡ Option.map (λ r. if test r then f r else r) (first_where seen rs)
  unfolding first_where update_where
  first_where-update_where test seen f [] same = refl
  first_where-update_where test seen f (x ∷ rs) same =
      ground (arith, same x, first_where-update_where test seen f rs same)

  -- The row after the UPDATE.
  abbrev pub changed : (R → Bool) → (R → R) → R → R
  changed test f r = if test r then f r else r

  -- Every two rows, in table order.
  abbrev pub Pairwise : (R → R → Type 0) → List R → Type 0
  Pairwise P [] = Unit
  Pairwise P (r ∷ rs) = All (P r) rs × Pairwise P rs

module _ {ℓ} {R : Type ℓ} where
  All-pair_update :
      (P : R → R → Type 0) (test : R → Bool) (f : R → R) (a : R) (rs : List R)
      → ((b c : R) → P b c → P (changed test f b) (changed test f c))
      → All (P a) rs
      → All (P (changed test f a)) (update_where test f rs)
  unfolding update_where
  All-pair_update P test f a [] keep h = tt
  All-pair_update P test f a (r ∷ rs) keep h =
      (keep a r h.0, All-pair_update P test f a rs keep h.1)

  -- An UPDATE keeps a relation between rows that its change keeps.
  pub Pairwise-update_where :
      (P : R → R → Type 0) (test : R → Bool) (f : R → R) (rs : List R)
      → ((b c : R) → P b c → P (changed test f b) (changed test f c))
      → Pairwise P rs
      → Pairwise P (update_where test f rs)
  unfolding update_where
  Pairwise-update_where P test f [] keep h = tt
  Pairwise-update_where P test f (r ∷ rs) keep h =
      (All-pair_update P test f r rs keep h.0, Pairwise-update_where P test f rs keep h.1)

  All-append_one : (P : R → Type 0) (rs : List R) (n : R) → All P rs → P n → All P (rs ++ n ∷ [])
  All-append_one P [] n h p = (p, tt)
  All-append_one P (r ∷ rs) n h p = (h.0, All-append_one P rs n h.1 p)

  -- INSERT of a row that stands in the relation to every row.
  pub Pairwise-append_one :
      (P : R → R → Type 0) (rs : List R) (n : R)
      → Pairwise P rs
      → All (λ r. P r n) rs
      → Pairwise P (rs ++ n ∷ [])
  Pairwise-append_one P [] n h k = (tt, tt)
  Pairwise-append_one P (r ∷ rs) n h k =
      (All-append_one (P r) rs n h.0 k.0, Pairwise-append_one P rs n h.1 k.1)
