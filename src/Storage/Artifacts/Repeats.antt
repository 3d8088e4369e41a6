-- ===== src/Storage/Artifacts/Repeats.antt =====
-- Cached urls repeated in turn until there are enough: `check_video_cache` of
-- src/myloware/workflows/helpers.py.
use native.Mathlib.Decide.{dec_lt}
use native.Mathlib.Nat.{mod-eq_of_lt}
use mylo_ware.Common.{
  get_elem?-append, get_elem?-append_end, get_elem?-some, sym, ap, ◌∙◌, ℕ, zero, suc, ◌+◌, ◌<◌, ◌≤◌,
  ◌%◌, max, String, ◌≡◌, inl, inr, some, List, [], ◌∷◌, arith, ltb, length, get_elem?, Bool-cases,
  length-append, ltb→lt,
}
use mylo_ware.Storage.Artifacts.Cache.{appended, repeat_urls, filled}

-- The urls in turn, from the first again after the last.
abbrev pub Cycles : List String → List String → Type 0
Cycles base urls = (i : ℕ) → i < length urls → get_elem? urls i ≡ get_elem? base (i % length base)

cycle_step :
    (base urls : List String)
    → 0 < length base
    → length base ≤ length urls
    → Cycles base urls
    → let urls' = appended (get_elem? urls (length urls % length base)) urls in
      Cycles base urls' × (length urls' ≡ length urls + 1)
cycle_step base urls pos le h =
    let k : ℕ = length urls % length base in
    let small : k < length base = omega arith in
    let (x, at_k) = get_elem?-some urls k (omega arith) in
    let again : k % length base ≡ k = mod-eq_of_lt small in
    let from_base : get_elem? base k ≡ some x = ground (arith, at_k, h k (omega arith), again) in
    rw at_k (
      λ i lt. elim (dec_lt i (length urls)) [
        | yes old ↦ get_elem?-append urls (x ∷ []) i old ∙ h i old
        | no new ↦
            let last : i ≡ length urls = omega (arith, length-append urls (x ∷ [])) in
            get_elem?-append_end urls x i last
            ∙ sym from_base
            ∙ ap (λ (m : ℕ). get_elem? base (m % length base)) (sym last)
      ],
      length-append urls (x ∷ []),
    )

repeat_urls-Cycles :
    (rounds required : ℕ) (base urls : List String)
    → 0 < length base
    → length base ≤ length urls
    → required ≤ length urls + rounds
    → Cycles base urls
    → let urls' = repeat_urls rounds (length base) required urls in
      Cycles base urls' × (length urls' ≡ max required (length urls))
unfolding repeat_urls
repeat_urls-Cycles zero required base urls pos le room h = (h, omega arith)
repeat_urls-Cycles (suc rounds) required base urls pos le room h =
    elim (Bool-cases (ltb (length urls) required)) [
      | inl short ↦
          let urls' = appended (get_elem? urls (length urls % length base)) urls in
          let (h', n) = cycle_step base urls pos le h in
          let (h'', m) =
            repeat_urls-Cycles rounds required base urls' pos (omega (arith, n)) (omega (arith, n))
              h' in
          rw short (h'', omega (arith, m, n, ltb→lt _ _ short))
      | inr full ↦ rw full (h, ground arith)
    ]

-- From cached urls that are not empty, the cache check makes a list of exactly `required` urls, or
-- of all of them if they are more: the cached ones in turn, from the first again after the last.
pub filled-Cycles :
    (required : ℕ) (u : String) (us : List String)
    → let base = u ∷ us in
      Cycles base (filled required base)
      × (length (filled required base) ≡ max required (length base))
unfolding filled
filled-Cycles required u us =
    let base = u ∷ us in
    repeat_urls-Cycles required required base base (omega arith) (omega arith) (omega arith)
      (λ i lt. ap (get_elem? base) (sym (mod-eq_of_lt lt)))
