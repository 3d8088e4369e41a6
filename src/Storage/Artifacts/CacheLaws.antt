-- ===== src/Storage/Artifacts/CacheLaws.antt =====
-- What the video cache returns: one clip for each sign, the most recent, in the order of the signs.
use mathlib.Core.List.{append-nil, append_assoc}
use mylo_ware.Common.{
  take_all, take-append_exact, sym, ap, ◌∙◌, ℕ, ◌+◌, ◌<◌, String, ◌≡◌, refl, inl, inr, Bool, true,
  false, Option, none, some, List, [], ◌∷◌, ◌++◌, arith, leb, str_eq, if◌then◌else◌, is_some,
  length, take, All, Bool-cases, Option-cases, eq_iff, length-append,
}
use mylo_ware.Common.Rows.{first_where}
use mylo_ware.Storage.Artifacts.{Artifact}
use mylo_ware.Storage.Artifacts.Cache.{
  topic_matches, sign_of, contains, Clips, lookup, all_clips, keep_sign, sign_to_clip, added,
  in_order, find_cached_videos,
}

-- A clip on the topic that stands for the sign.
abbrev pub is_for : String → String → Artifact → Bool
is_for topic s a = elim (topic_matches topic a) [
  | some true ↦ elim (sign_of a) [ none ↦ false | some t ↦ str_eq t s ]
  | _ ↦ false
]

-- The topics of all clips are texts.
abbrev pub HasTopic : String → Artifact → Type 0
HasTopic topic a = is_some (topic_matches topic a) ≡ true

abbrev first_of_two : Option Artifact → Option Artifact → Option Artifact
first_of_two none b = b
first_of_two (some a) b = some a

lookup-append :
    (s t : String) (a : Artifact) (clips : List (String × Artifact))
    → lookup s (clips ++ (t, a) ∷ [])
      ≡ first_of_two (lookup s clips) (if str_eq t s then some a else none)
lookup-append s t a [] = refl
lookup-append s t a ((u, b) ∷ clips) = ground (arith, lookup-append s t a clips)

-- The sign that a clip stands for, if any.
abbrev matches : String → Option String → Bool
matches s none = false
matches s (some t) = str_eq t s

-- One turn of the loop, on a clip of the topic.
lookup-keep_sign :
    (s : String) (signs : List String) (a : Artifact) (clips : Clips) (o : Option String)
    → contains signs s ≡ true
    → lookup s (keep_sign signs a clips o)
      ≡ first_of_two (lookup s clips) (if matches s o then some a else none)
unfolding keep_sign
lookup-keep_sign s signs a clips none c = ground arith
lookup-keep_sign s signs a clips (some t) c = elim (Bool-cases (str_eq t s)) [
  | inl e ↦
      let same : t ≡ s = (eq_iff t s).0 e in
      rw (e, same, c) (ground (arith, lookup-append s s a clips, eq_iff s s))
  | inr e ↦ rw e (ground (arith, lookup-append s t a clips))
]

-- What the loop over the clips finds for a wanted sign.
abbrev Found : String → List String → List Artifact → Clips → Clips → Type 0
Found topic signs cs clips clips' =
    (s : String)
    → contains signs s ≡ true
    → lookup s clips' ≡ first_of_two (lookup s clips) (first_where (is_for topic s) cs)

is_for-matches :
    (topic s : String) (a : Artifact)
    → topic_matches topic a ≡ some true
    → is_for topic s a ≡ matches s (sign_of a)
is_for-matches topic s a m = ground (arith, m)

Found-step :
    (topic : String) (signs : List String) (a : Artifact) (cs : List Artifact)
    (clips clips' : Clips)
    → topic_matches topic a ≡ some true
    → Found topic signs cs (keep_sign signs a clips (sign_of a)) clips'
    → Found topic signs (a ∷ cs) clips clips'
unfolding first_where
Found-step topic signs a cs clips clips' m ih s c =
    ground
      (arith, ih s c, lookup-keep_sign s signs a clips (sign_of a) c, is_for-matches topic s a m)

sign_to_clip_lem :
    (topic : String) (signs : List String) (cs : List Artifact) (clips : Clips)
    → All (HasTopic topic) cs
    → (clips' : Clips) × (sign_to_clip topic signs clips cs ≡ some clips')
      × Found topic signs cs clips clips'
unfolding sign_to_clip first_where
sign_to_clip_lem topic signs [] clips all = (clips, refl, λ s c. ground arith)
sign_to_clip_lem topic signs (a ∷ cs) clips all = elim (Option-cases (topic_matches topic a)) [
  | inl e ↦ absurd (ground (arith, e, all.0))
  | inr (b, e) ↦ elim (Bool-cases b) [
    | inl t ↦
        let (clips', same, found) =
          sign_to_clip_lem topic signs cs (keep_sign signs a clips (sign_of a)) all.1 in
        (
          clips',
          ground (arith, e, t, same),
          Found-step topic signs a cs clips clips' (ground (arith, e, t)) found,
        )
    | inr f ↦
        let (clips', same, found) = sign_to_clip_lem topic signs cs clips all.1 in
        (clips', ground (arith, e, f, same), λ s c. ground (arith, e, f, found s c))
  ]
]

-- The values that a search gives for the signs, in their order.
abbrev pub present : (String → Option Artifact) → List String → List Artifact
present f [] = []
present f (s ∷ signs) = elim (f s) [ none ↦ present f signs | some a ↦ a ∷ present f signs ]

abbrev Ordered : Clips → ℕ → List Artifact → List String → Type 0
Ordered clips limit results signs =
    in_order clips limit results signs ≡ take limit (results ++ present (λ s. lookup s clips) signs)

in_order_step :
    (clips : Clips) (limit : ℕ) (results : List Artifact) (s : String) (signs : List String)
    (o : Option Artifact)
    → lookup s clips ≡ o
    → length results < limit
    → (length (added o results) < limit → Ordered clips limit (added o results) signs)
    → Ordered clips limit results (s ∷ signs)
unfolding in_order
in_order_step clips limit results s signs none e h ih = ground (arith, e, ih)
in_order_step clips limit results s signs (some a) e h ih =
    let assoc : results ++ (a ∷ present (λ t. lookup t clips) signs)
        ≡ (results ++ a ∷ []) ++ present (λ t. lookup t clips) signs =
      sym (append_assoc results (a ∷ []) (present (λ t. lookup t clips) signs)) in
    let len : length (results ++ a ∷ []) ≡ length results + 1 = length-append results (a ∷ []) in
    elim (Bool-cases (leb limit (length (results ++ a ∷ [])))) [
      | inl full ↦ ground (
        arith,
        e,
        full,
        assoc,
        take-append_exact limit (results ++ a ∷ []) (present (λ t. lookup t clips) signs)
            (ground (arith, len)),
      )
      | inr more ↦ ground (arith, e, more, assoc, ih)
    ]

in_order_lem :
    (clips : Clips) (limit : ℕ) (results : List Artifact) (signs : List String)
    → length results < limit
    → Ordered clips limit results signs
in_order_lem clips limit results [] h =
    unfold in_order in rw append-nil (sym (take_all limit results (omega arith)))
in_order_lem clips limit results (s ∷ signs) h =
    in_order_step clips limit results s signs (lookup s clips) refl h
      (λ lt. in_order_lem clips limit (added (lookup s clips) results) signs lt)

present-eq :
    (f g : String → Option Artifact) (all signs : List String)
    → ((s : String) → contains all s ≡ true → f s ≡ g s)
    → ((s : String) → contains signs s ≡ true → contains all s ≡ true)
    → present f signs ≡ present g signs
present-eq f g all [] same sub = refl
present-eq f g all (s ∷ signs) same sub = ground (
  arith,
  same s,
  sub s (ground (arith, eq_iff s s)),
  present-eq f g all signs same (λ t c. sub t (ground (arith, c))),
)

-- With a list of signs, and topics that are texts, `find_cached_videos` returns for each sign in
-- turn the most recent clip on the topic that stands for it, where there is one, up to the limit.
pub find_cached_videos_by_sign :
    (topic : String) (signs : List String) (limit : ℕ) (artifacts : List Artifact)
    → All (HasTopic topic) (all_clips artifacts)
    → 0 < limit
    → find_cached_videos topic (some signs) limit artifacts
      ≡ some (take limit (present (λ s. first_where (is_for topic s) (all_clips artifacts)) signs))
unfolding find_cached_videos
find_cached_videos_by_sign topic signs limit artifacts all pos =
    let (clips, same, found) = sign_to_clip_lem topic signs (all_clips artifacts) [] all in
    let order = in_order_lem clips limit [] signs (omega arith) in
    let by_sign =
      present-eq (λ s. lookup s clips) (λ s. first_where (is_for topic s) (all_clips artifacts))
        signs signs (λ s c. found s c) (λ s c. c) in
    rw same (ap some (order ∙ ap (take limit) by_sign))
