-- ===== src/Safety/CacheLaws.antt =====
-- What a cached verdict is worth.
use mathlib.Core.Path.{subst}
use mylo_ware.Common.{
  ap, String, ◌≡◌, refl, true, false, ◌⊎◌, inl, inr, none, some, [], ◌∷◌, arith, str_eq, eq_iff,
  if◌then◌else◌, Option-cases, Bool-cases,
}
use mylo_ware.Common.Text.{codes_eq_iff}
use mylo_ware.Config.ProviderModes.{ProviderMode}
use mylo_ware.Safety.Shields.{Text, SafetyResult, passed, failed, Answer, check_agent_output}
use mylo_ware.Safety.Cache.{
  Entry, Cache, lookup, put, store_result, reusable, reason_or_blocked, maybe_reuse, guard,
  guard_output_with_cache,
}

lookup-put :
    (k j : String) (e : Entry) (cache : Cache)
    → lookup j (put k e cache) ≡ (if str_eq k j then some e else lookup j cache)
unfolding lookup put
lookup-put k j e [] = refl
lookup-put k j e ((i, d) ∷ cache) =
    ground (arith, eq_iff k j, eq_iff i k, eq_iff i j, lookup-put k j e cache)

-- A verdict that a replay does not ask for again.
abbrev pub IsFinal : SafetyResult → Type 0
IsFinal r = (r.safe ≡ true) ⊎ (reusable r.category ≡ true)

reuse_stored :
    (hash : Text) (r : SafetyResult)
    → IsFinal r
    → (r' : SafetyResult) × (maybe_reuse (some (record { hash = hash; verdict = r })) hash
        ≡ some r')
      × (r'.safe ≡ r.safe)
unfolding maybe_reuse
reuse_stored hash r (inl safe) =
    (passed, ground (arith, safe, codes_eq_iff hash hash), ground (arith, safe))
reuse_stored hash r (inr again) = elim (Bool-cases r.safe) [
  | inl safe ↦ (passed, ground (arith, safe, codes_eq_iff hash hash), ground (arith, safe))
  | inr blocked ↦ (
    failed (reason_or_blocked r.reason) r.category r.severity,
    ground (arith, blocked, again, codes_eq_iff hash hash),
    ground (arith, blocked),
  )
]

guard_hit :
    (hash : Text) (asked : SafetyResult) (key : String) (cache : Cache) {r : SafetyResult}
    → maybe_reuse (lookup key cache) hash ≡ some r
    → guard hash asked key cache ≡ (r, cache)
unfolding guard
guard_hit hash asked key cache h = rw (h, guard)

pub guard_miss :
    (hash : Text) (asked : SafetyResult) (key : String) (cache : Cache)
    → maybe_reuse (lookup key cache) hash ≡ none
    → guard hash asked key cache ≡ (asked, store_result cache key hash asked)
unfolding guard
guard_miss hash asked key cache h = rw (h, guard)

pub guard_replays :
    (hash : Text) (asked asked' : SafetyResult) (key : String) (cache cache' : Cache)
    → IsFinal (guard hash asked key cache).0
    → lookup key cache' ≡ lookup key (guard hash asked key cache).1
    → ((guard hash asked' key cache').0.safe ≡ (guard hash asked key cache).0.safe)
      × ((guard hash asked' key cache').1 ≡ cache')
guard_replays hash asked asked' key cache cache' final same =
    elim (Option-cases (maybe_reuse (lookup key cache) hash)) [
      | inr (r, hit) ↦
          let first = guard_hit hash asked key cache hit in
          let second =
            guard_hit hash asked' key cache' {r = r} (ground (arith, hit, same, first)) in
          ground (arith, first, second)
      | inl miss ↦
          let first = guard_miss hash asked key cache miss in
          let entry : lookup key cache' ≡ some (record { hash = hash; verdict = asked }) =
            unfold store_result in
            ground (
              arith,
              same,
              first,
              eq_iff key key,
              lookup-put key key (record { hash = hash; verdict = asked }) cache,
            ) in
          let (r, hit, agrees) =
            reuse_stored hash asked (subst IsFinal (ap (λ p. p.0) first) final) in
          let second = guard_hit hash asked' key cache' {r = r} (ground (arith, entry, hit)) in
          ground (arith, first, second, agrees)
    ]

-- A replay of an output check, on a cache that other checks may have changed since under other
-- keys, and with a shield that answers differently or not at all by now, comes to the decision of
-- the first time, if that passed the content or blocked it with a category other than
-- "system_error"; and it changes nothing in the cache.
pub guard_output_replays :
    (sha256 : Text → Text) (mode : ProviderMode) (shield shield' : Text → Answer) (key : String)
    (content : Text) (cache cache' : Cache)
    → IsFinal (guard_output_with_cache sha256 mode shield key content cache).0
    → lookup key cache'
      ≡ lookup key (guard_output_with_cache sha256 mode shield key content cache).1
    → ((guard_output_with_cache sha256 mode shield' key content cache').0.safe
        ≡ (guard_output_with_cache sha256 mode shield key content cache).0.safe)
      × ((guard_output_with_cache sha256 mode shield' key content cache').1 ≡ cache')
unfolding guard_output_with_cache
guard_output_replays sha256 mode shield shield' key content cache cache' final same =
    guard_replays (sha256 content) (check_agent_output mode shield content)
      (check_agent_output mode shield' content) key cache cache' final same

-- A blocked verdict without a category, which is what a violation without one gives, or with the
-- category "system_error", is not used again: the shield is asked anew, and its answer decides and
-- replaces the entry.
pub guard_output_asks_again :
    (sha256 : Text → Text) (mode : ProviderMode) (shield : Text → Answer) (key : String)
    (content : Text) (cache : Cache) {e : Entry}
    → lookup key cache ≡ some e
    → e.verdict.safe ≡ false
    → reusable e.verdict.category ≡ false
    → let (r, cache') = guard_output_with_cache sha256 mode shield key content cache in
      (r ≡ check_agent_output mode shield content)
      × (lookup key cache' ≡ some (record { hash = sha256 content; verdict = r }))
unfolding guard_output_with_cache
guard_output_asks_again sha256 mode shield key content cache {e} at blocked final =
    let asked = check_agent_output mode shield content in
    let miss : maybe_reuse (lookup key cache) (sha256 content) ≡ none =
      unfold maybe_reuse in ground (arith, at, blocked, final) in
    let first = guard_miss (sha256 content) asked key cache miss in
    (
      ground (arith, first),
      unfold store_result in
          ground (
            arith,
            first,
            eq_iff key key,
            lookup-put key key (record { hash = sha256 content; verdict = asked }) cache,
          ),
    )
