-- ===== src/Workflow/Clips/Laws.antt =====
-- Which clips src/myloware/workflows/langgraph/utils.py selects, and in which order.
use mylo_ware.Common.{
  ◌≤◌, String, ◌≡◌, refl, ◌∙◌, Bool, true, false, some, ◌⊎◌, inl, inr, List, [], ◌∷◌, arith, ltb,
  select, insert_by, sort_by, length, map, All, All-insert_by, All-sort_by, All-select,
  All-select_of, All-Any, All-zip, Any, All-map_fun, Bool-cases,
}
use mylo_ware.Common.Rows.{Pairwise}
use mylo_ware.Storage.Artifacts.{Artifact}
use mylo_ware.Workflow.Clips.{
  Media, comes_before, is_clip, is_clip_of, sorted_video_clip_artifacts, sorted_video_clip_urls,
  public_url, expected_count, latest_manifest, task_ids, select_latest_video_clip_urls, uri_of,
  urls_of_tasks,
}

-- No element comes before one that stands in front of it.
abbrev pub Sorted {ℓ} : {A : Type ℓ} → (A → A → Bool) → List A → Type 0
Sorted before xs = Pairwise (λ x y. before y x ≡ false) xs

-- An order that never says yes both ways, and whose "not before" is transitive.
pub record WeakOrder {ℓ} {A : Type ℓ} (before : A → A → Bool) : Type ℓ where
  pub asym : (x y : A) → before x y ≡ true → before y x ≡ false
  pub trans : (x y z : A) → before y x ≡ false → before z y ≡ false → before z x ≡ false

module _ {ℓ} {A : Type ℓ} (before : A → A → Bool) (o : WeakOrder before) where
  insert_by-Sorted :
      (x : A) (xs : List A) → Sorted before xs → Sorted before (insert_by before x xs)
  unfolding insert_by
  insert_by-Sorted x [] h = (tt, tt)
  insert_by-Sorted x (y ∷ ys) h = elim (Bool-cases (before y x)) [
    | inl e ↦ rw e (
      All-insert_by (λ z. before z y ≡ false) before x ys (o.asym y x e) h.0,
      insert_by-Sorted x ys h.1,
    )
    | inr e ↦ rw e (
      (
        e,
        All-map_fun (λ z. before z y ≡ false) (λ z. before z x ≡ false) ys (λ z. o.trans x y z e)
            h.0,
      ),
      h,
    )
  ]

  pub sort_by-Sorted : (xs : List A) → Sorted before (sort_by before xs)
  unfolding sort_by
  sort_by-Sorted [] = tt
  sort_by-Sorted (x ∷ xs) = insert_by-Sorted x (sort_by before xs) (sort_by-Sorted xs)

module _ {ℓ} {A : Type ℓ} (before : A → A → Bool) where
  length-insert_by : (x : A) (xs : List A) → length (insert_by before x xs) ≡ length (x ∷ xs)
  unfolding insert_by
  length-insert_by x [] = refl
  length-insert_by x (y ∷ ys) = ground (arith, length-insert_by x ys)

  pub length-sort_by : (xs : List A) → length (sort_by before xs) ≡ length xs
  unfolding sort_by
  length-sort_by [] = refl
  length-sort_by (x ∷ xs) = omega (arith, length-insert_by x (sort_by before xs), length-sort_by xs)

comes_before-WeakOrder : (m : Media) → WeakOrder (comes_before m)
unfolding comes_before
comes_before-WeakOrder m = record {
  asym = λ x y h. ground (arith, h);
  trans = λ x y z h k. ground (arith, h, k);
}

-- The clips that are selected: those of the run that are clips and have a uri, sorted by their index
-- and then by their time.
pub sorted_video_clip_artifacts-Sorted :
    (m : Media) (artifacts : List Artifact)
    → Sorted (comes_before m) (sorted_video_clip_artifacts m artifacts)
      × All (λ a. is_clip m a ≡ true) (sorted_video_clip_artifacts m artifacts)
      × (length (sorted_video_clip_artifacts m artifacts) ≡ length (select (is_clip m) artifacts))
unfolding sorted_video_clip_artifacts
sorted_video_clip_artifacts-Sorted m artifacts = (
  sort_by-Sorted (comes_before m) (comes_before-WeakOrder m) (select (is_clip m) artifacts),
  All-sort_by (λ a. is_clip m a ≡ true) (comes_before m) (select (is_clip m) artifacts)
      (All-select (is_clip m) artifacts),
  length-sort_by (comes_before m) (select (is_clip m) artifacts),
)

module _ {ℓ} {A : Type ℓ} where
  -- Elements that all pass are all selected.
  select_same : (p : A → Bool) (xs : List A) → All (λ x. p x ≡ true) xs → select p xs ≡ xs
  unfolding select
  select_same p [] h = refl
  select_same p (x ∷ xs) h = ground (arith, h.0, select_same p xs h.1)

is_clip_of-is_clip :
    (m : Media) (tasks : List String) (a : Artifact)
    → is_clip_of m tasks a ≡ true
    → is_clip m a ≡ true
unfolding is_clip_of
is_clip_of-is_clip m tasks a h = ground (arith, h)

map-map :
    {A B C : Type 0} (f : A → B) (g : B → C) (xs : List A)
    → map g (map f xs) ≡ map (λ x. g (f x)) xs
map-map f g [] = refl
map-map f g (x ∷ xs) = cc (map-map f g xs)

-- Where the latest manifest names tasks, what is selected is either nothing, or the public urls of
-- clips among the artifacts, each of one of those tasks, in the order of their indices, and at least
-- as many as the manifest expects.
pub select_latest-Tasks :
    (m : Media) (artifacts : List Artifact) (t : String) (ts : List String) {manifest : Artifact}
    → latest_manifest m artifacts ≡ some manifest
    → task_ids m manifest ≡ t ∷ ts
    → (select_latest_video_clip_urls m artifacts ≡ [])
      ⊎ ((clips : List Artifact) × (select_latest_video_clip_urls m artifacts
            ≡ map (λ a. public_url m (uri_of m a)) clips)
          × Sorted (comes_before m) clips
          × All (λ a. Any (λ b. b ≡ a) artifacts × (is_clip_of m (t ∷ ts) a ≡ true)) clips
          × (expected_count m manifest ≤ length clips))
unfolding select_latest_video_clip_urls sorted_video_clip_urls sorted_video_clip_artifacts
select_latest-Tasks m artifacts t ts {manifest} h k =
    let tasks = t ∷ ts in
    let found = select (is_clip_of m tasks) artifacts in
    let passes : All (λ a. is_clip_of m tasks a ≡ true) found =
      All-select (is_clip_of m tasks) artifacts in
    let among : All (λ a. Any (λ b. b ≡ a) artifacts) found =
      All-select_of (λ a. Any (λ b. b ≡ a) artifacts) (is_clip_of m tasks) artifacts
        (All-map_fun (λ a. Any (λ b. b ≡ a) artifacts)
          (λ a. is_clip_of m tasks a ≡ true → Any (λ b. b ≡ a) artifacts) artifacts (λ a x p. x)
          (All-Any artifacts)) in
    let clips = sort_by (comes_before m) found in
    let same : select (is_clip m) found ≡ found = select_same (is_clip m) found (
      All-map_fun (λ a. is_clip_of m tasks a ≡ true) (λ a. is_clip m a ≡ true) found
        (is_clip_of-is_clip m tasks) passes) in
    let chosen : select_latest_video_clip_urls m artifacts
        ≡ urls_of_tasks m tasks manifest artifacts =
      rw (h, k, select_latest_video_clip_urls) refl in
    elim (Bool-cases (ltb (length found) (expected_count m manifest))) [
      | inl e ↦ inl (chosen ∙ rw e refl)
      | inr e ↦ inr (
        clips,
        chosen ∙ rw (e, same) (map-map (uri_of m) (public_url m) clips),
        sort_by-Sorted (comes_before m) (comes_before-WeakOrder m) found,
        All-zip (λ a. Any (λ b. b ≡ a) artifacts) (λ a. is_clip_of m tasks a ≡ true) clips
            (All-sort_by (λ a. Any (λ b. b ≡ a) artifacts) (comes_before m) found among)
            (All-sort_by (λ a. is_clip_of m tasks a ≡ true) (comes_before m) found passes),
        ground (arith, e, length-sort_by (comes_before m) found),
      )
    ]
