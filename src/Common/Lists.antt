-- ===== src/Common/Lists.antt =====
-- Lists measured by native numbers, and predicates on all elements.
use Prim.Native.Nat.{ℕ, zero, suc, ◌+◌, ◌≤◌, ◌<◌}
use mathlib.Core.Path.{◌≡◌, refl, ap}
use mathlib.Core.Logic.{◌⊎◌, inl, inr}
use mathlib.Core.Bool.{Bool, true, false, ◌&&◌, ◌||◌}
use mathlib.Core.List.{List, [], ◌∷◌, ◌++◌}
use mathlib.Core.Option.{Option, none, some}
use native.Mathlib.Omega.{arith}
use mylo_ware.Common.Tests.{if◌then◌else◌, Bool-cases}

module _ {ℓ} {A : Type ℓ} where
  abbrev pub length : List A → ℕ
  length [] = 0
  length (x ∷ xs) = suc (length xs)

  abbrev pub get_elem? : List A → ℕ → Option A
  get_elem? [] i = none
  get_elem? (x ∷ xs) zero = some x
  get_elem? (x ∷ xs) (suc i) = get_elem? xs i

  -- `l[:n]`
  abbrev pub take : ℕ → List A → List A
  take zero xs = []
  take (suc n) [] = []
  take (suc n) (x ∷ xs) = x ∷ take n xs

  -- `[x for x in l if p(x)]`
  unfoldable pub select : (A → Bool) → List A → List A
  select p [] = []
  select p (x ∷ xs) = let rest = select p xs in if p x then x ∷ rest else rest

  -- Stable insertion sort: `before x y` says that `x` must come before `y`.
  unfoldable pub insert_by : (A → A → Bool) → A → List A → List A
  insert_by before x [] = x ∷ []
  insert_by before x (y ∷ ys) = if before y x then y ∷ insert_by before x ys else x ∷ y ∷ ys

  unfoldable pub sort_by : (A → A → Bool) → List A → List A
  unfolding insert_by
  sort_by before [] = []
  sort_by before (x ∷ xs) = insert_by before x (sort_by before xs)

  pub length-append : (xs ys : List A) → length (xs ++ ys) ≡ length xs + length ys
  length-append [] ys = omega arith
  length-append (x ∷ xs) ys = omega (arith, length-append xs ys)

  pub length-select : (p : A → Bool) (xs : List A) → length (select p xs) ≤ length xs
  unfolding select
  length-select p [] = omega arith
  length-select p (x ∷ xs) = ground (arith, length-select p xs)

-- Every element satisfies `P`.
abbrev pub All {ℓ κ} : {A : Type ℓ} → (A → Type κ) → List A → Type κ
All P [] = Unit
All P (x ∷ xs) = P x × All P xs

-- Some element satisfies `P`.
abbrev pub Any {ℓ} : {A : Type ℓ} → (A → Type 0) → List A → Type 0
Any P [] = ⊥
Any P (x ∷ xs) = P x ⊎ Any P xs

module _ {ℓ} {A : Type ℓ} where
  pub All-map_fun : (P Q : A → Type 0) (xs : List A) → ((x : A) → P x → Q x) → All P xs → All Q xs
  All-map_fun P Q [] f h = tt
  All-map_fun P Q (x ∷ xs) f h = (f x h.0, All-map_fun P Q xs f h.1)

  pub All-zip : (P Q : A → Type 0) (xs : List A) → All P xs → All Q xs → All (λ x. P x × Q x) xs
  All-zip P Q [] h k = tt
  All-zip P Q (x ∷ xs) h k = ((h.0, k.0), All-zip P Q xs h.1 k.1)

  pub All-append : (P : A → Type 0) (xs ys : List A) → All P xs → All P ys → All P (xs ++ ys)
  All-append P [] ys h k = k
  All-append P (x ∷ xs) ys h k = (h.0, All-append P xs ys h.1 k)

  -- Every element that `select` keeps passes its test.
  pub All-select : (p : A → Bool) (xs : List A) → All (λ x. p x ≡ true) (select p xs)
  unfolding select
  All-select p [] = tt
  All-select p (x ∷ xs) = elim (Bool-cases (p x)) [
    | inl e ↦ rw e (e, All-select p xs)
    | inr e ↦ rw e (All-select p xs)
  ]

  pub All-insert_by :
      (P : A → Type 0) (before : A → A → Bool) (x : A) (xs : List A)
      → P x
      → All P xs
      → All P (insert_by before x xs)
  unfolding insert_by
  All-insert_by P before x [] p h = (p, tt)
  All-insert_by P before x (y ∷ ys) p h = elim (Bool-cases (before y x)) [
    | inl e ↦ rw e (h.0, All-insert_by P before x ys p h.1)
    | inr e ↦ rw e (p, (h.0, h.1))
  ]

  pub All-sort_by :
      (P : A → Type 0) (before : A → A → Bool) (xs : List A) → All P xs → All P (sort_by before xs)
  unfolding sort_by
  All-sort_by P before [] h = tt
  All-sort_by P before (x ∷ xs) h =
      All-insert_by P before x (sort_by before xs) h.0 (All-sort_by P before xs h.1)

  pub Any-insert_by :
      (P : A → Type 0) (before : A → A → Bool) (x : A) (xs : List A)
      → P x ⊎ Any P xs
      → Any P (insert_by before x xs)
  unfolding insert_by
  Any-insert_by P before x [] h = h
  Any-insert_by P before x (y ∷ ys) h = elim (Bool-cases (before y x)) [
    | inl e ↦ rw e (elim h [
      | inl p ↦ inr (Any-insert_by P before x ys (inl p))
      | inr (inl p) ↦ inl p
      | inr (inr any) ↦ inr (Any-insert_by P before x ys (inr any))
    ])
    | inr e ↦ rw e h
  ]

  pub Any-sort_by :
      (P : A → Type 0) (before : A → A → Bool) (xs : List A) → Any P xs → Any P (sort_by before xs)
  unfolding sort_by
  Any-sort_by P before [] h = h
  Any-sort_by P before (x ∷ xs) (inl p) = Any-insert_by P before x (sort_by before xs) (inl p)
  Any-sort_by P before (x ∷ xs) (inr h) =
      Any-insert_by P before x (sort_by before xs) (inr (Any-sort_by P before xs h))

  pub take_all : (n : ℕ) (xs : List A) → length xs ≤ n → take n xs ≡ xs
  take_all zero [] h = refl
  take_all zero (x ∷ xs) h = absurd (omega arith)
  take_all (suc n) [] h = refl
  take_all (suc n) (x ∷ xs) h = rw (take_all n xs (omega arith))

  pub take-append_exact : (n : ℕ) (xs ys : List A) → length xs ≡ n → take n (xs ++ ys) ≡ xs
  take-append_exact zero [] ys h = refl
  take-append_exact zero (x ∷ xs) ys h = absurd (omega arith)
  take-append_exact (suc n) [] ys h = absurd (omega arith)
  take-append_exact (suc n) (x ∷ xs) ys h = rw (take-append_exact n xs ys (omega arith))

  pub get_elem?-append :
      (xs ys : List A) (i : ℕ) → i < length xs → get_elem? (xs ++ ys) i ≡ get_elem? xs i
  get_elem?-append [] ys i h = absurd (omega arith)
  get_elem?-append (x ∷ xs) ys zero h = refl
  get_elem?-append (x ∷ xs) ys (suc i) h = get_elem?-append xs ys i (omega arith)

  pub get_elem?-append_end :
      (xs : List A) (y : A) (i : ℕ) → i ≡ length xs → get_elem? (xs ++ y ∷ []) i ≡ some y
  get_elem?-append_end [] y zero h = refl
  get_elem?-append_end [] y (suc i) h = absurd (omega arith)
  get_elem?-append_end (x ∷ xs) y zero h = absurd (omega arith)
  get_elem?-append_end (x ∷ xs) y (suc i) h = get_elem?-append_end xs y i (omega arith)

  pub get_elem?-some : (xs : List A) (i : ℕ) → i < length xs → (x : A) × (get_elem? xs i ≡ some x)
  get_elem?-some [] i h = absurd (omega arith)
  get_elem?-some (x ∷ xs) zero h = (x, refl)
  get_elem?-some (x ∷ xs) (suc i) h = get_elem?-some xs i (omega arith)

  -- What the test gives an element of the list, each element that `select` keeps has.
  pub All-select_of :
      (P : A → Type 0) (p : A → Bool) (xs : List A)
      → All (λ x. p x ≡ true → P x) xs
      → All P (select p xs)
  unfolding select
  All-select_of P p [] h = tt
  All-select_of P p (x ∷ xs) h = elim (Bool-cases (p x)) [
    | inl e ↦ rw e (h.0 e, All-select_of P p xs h.1)
    | inr e ↦ rw e (All-select_of P p xs h.1)
  ]

module _ {A : Type 0} where
  -- Every element is among the elements.
  pub All-Any : (xs : List A) → All (λ x. Any (λ y. y ≡ x) xs) xs
  All-Any [] = tt
  All-Any (x ∷ xs) = (
    inl refl,
    All-map_fun (λ y. Any (λ z. z ≡ y) xs) (λ y. Any (λ z. z ≡ y) (x ∷ xs)) xs (λ y h. inr h)
        (All-Any xs),
  )

  -- `select` keeps an element that passes its test.
  pub Any-select :
      (p : A → Bool) (a : A) (xs : List A)
      → p a ≡ true
      → Any (λ y. y ≡ a) xs
      → Any (λ y. y ≡ a) (select p xs)
  unfolding select
  Any-select p a [] h any = elim any [ ]
  Any-select p a (x ∷ xs) h any = elim (Bool-cases (p x)) [
    | inl e ↦ rw e (elim any [ inl q ↦ inl q | inr rest ↦ inr (Any-select p a xs h rest) ])
    | inr e ↦ rw e (elim any [
      | inl q ↦ absurd (ground (arith, e, h, ap p q))
      | inr rest ↦ Any-select p a xs h rest
    ])
  ]

module _ {ℓ} {A : Type ℓ} where
  -- `any(test(x) for x in l)`
  abbrev pub any : (A → Bool) → List A → Bool
  any test [] = false
  any test (x ∷ xs) = test x || any test xs

  pub any-append_one :
      (test : A → Bool) (xs : List A) (x : A) → any test (xs ++ x ∷ []) ≡ (any test xs || test x)
  any-append_one test [] x = ground arith
  any-append_one test (y ∷ ys) x = ground (arith, any-append_one test ys x)

  any-insert_by :
      (test : A → Bool) (before : A → A → Bool) (x : A) (xs : List A)
      → any test (insert_by before x xs) ≡ (test x || any test xs)
  unfolding insert_by
  any-insert_by test before x [] = refl
  any-insert_by test before x (y ∷ ys) = ground (arith, any-insert_by test before x ys)

  pub any-sort_by :
      (test : A → Bool) (before : A → A → Bool) (xs : List A)
      → any test (sort_by before xs) ≡ any test xs
  unfolding sort_by
  any-sort_by test before [] = refl
  any-sort_by test before (x ∷ xs) =
      ground (arith, any-insert_by test before x (sort_by before xs), any-sort_by test before xs)

  pub any-select :
      (test p : A → Bool) (xs : List A) → any test (select p xs) ≡ any (λ x. p x && test x) xs
  unfolding select
  any-select test p [] = refl
  any-select test p (x ∷ xs) = ground (arith, any-select test p xs)

  pub any-same : (f g : A → Bool) (xs : List A) → ((x : A) → f x ≡ g x) → any f xs ≡ any g xs
  any-same f g [] h = refl
  any-same f g (x ∷ xs) h = ground (arith, h x, any-same f g xs h)

  -- Where no element passes, each fails.
  pub All-any : (test : A → Bool) (xs : List A) → any test xs ≡ false → All (λ x. test x ≡ false) xs
  All-any test [] h = tt
  All-any test (x ∷ xs) h = (ground (arith, h), All-any test xs (ground (arith, h)))
