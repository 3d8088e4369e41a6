-- ===== src/Safety/Cache.antt =====
-- src/myloware/workflows/langgraph/safety_cache.py: safety verdicts kept for replays. The digest of a
-- text (SHA-256) and the shield are parameters.
use mylo_ware.Common.{
  String, Bool, true, false, Option, none, some, List, [], ◌∷◌, ◌++◌, or_else, str_eq,
  if◌then◌else◌,
}
use mylo_ware.Common.Text.{codes, codes_eq}
use mylo_ware.Config.ProviderModes.{ProviderMode}
use mylo_ware.Safety.Shields.{
  Text, SafetyResult, passed, failed, Answer, Message, check_agent_input, check_agent_output,
}

-- One entry: {"hash": ..., "safe": ..., "reason": ..., "category": ..., "severity": ...}.
pub record Entry : Type 0 where
  pub hash : Text
  pub verdict : SafetyResult

-- `state["safety_cache"]`, by cache key.
abbrev pub Cache : Type 0
Cache = List (String × Entry)

unfoldable pub lookup : String → Cache → Option Entry
lookup k [] = none
lookup k ((j, e) ∷ cache) = if str_eq j k then some e else lookup k cache

unfoldable pub put : String → Entry → Cache → Cache
put k e [] = (k, e) ∷ []
put k e ((j, d) ∷ cache) = if str_eq j k then (j, e) ∷ cache else (j, d) ∷ put k e cache

-- `_store_result`
unfoldable pub store_result : Cache → String → Text → SafetyResult → Cache
unfolding put
store_result cache key hash result = put key (record { hash = hash; verdict = result }) cache

-- A category that lets a violation be used again: a text that is not empty and not "system_error".
abbrev pub reusable : Option Text → Bool
reusable none = false
reusable (some []) = false
reusable (some (c ∷ s)) = if codes_eq (c ∷ s) (codes "system_error") then false else true

abbrev pub reason_or_blocked : Option Text → Text
reason_or_blocked none = codes "Content blocked"
reason_or_blocked (some []) = codes "Content blocked"
reason_or_blocked (some (c ∷ s)) = c ∷ s

-- `_maybe_reuse`
unfoldable pub maybe_reuse : Option Entry → Text → Option SafetyResult
maybe_reuse none hash = none
maybe_reuse (some e) hash =
    if codes_eq e.hash hash
    then if e.verdict.safe
      then some passed
      else if reusable e.verdict.category
      then some (failed (reason_or_blocked e.verdict.reason) e.verdict.category e.verdict.severity)
      else none
    else none

-- The body that both guards share: reuse, or else ask and store.
unfoldable pub guard : Text → SafetyResult → String → Cache → SafetyResult × Cache
unfolding lookup maybe_reuse store_result
guard hash asked key cache = elim (maybe_reuse (lookup key cache) hash) [
  | some cached ↦ (cached, cache)
  | none ↦ (asked, store_result cache key hash asked)
]

abbrev none_text : Option Text → Text
none_text none = codes "None"
none_text (some t) = t

-- f"{m.get('role')}: {m.get('content','')}"
unfoldable pub line : Message → Text
line m = none_text m.role ++ codes ": " ++ or_else m.content []

-- "\n".join(...)
unfoldable pub payload : List Message → Text
unfolding line
payload [] = []
payload (m ∷ []) = line m
payload (m ∷ n ∷ ms) = line m ++ codes "\n" ++ payload (n ∷ ms)

module _ (sha256 : Text → Text) (mode : ProviderMode) (shield : Text → Answer) where
  -- `guard_input_with_cache`
  unfoldable pub guard_input_with_cache : String → List Message → Cache → SafetyResult × Cache
  unfolding guard payload check_agent_input
  guard_input_with_cache key messages cache =
      guard (sha256 (payload messages)) (check_agent_input mode shield messages) key cache

  -- `guard_output_with_cache`
  unfoldable pub guard_output_with_cache : String → Text → Cache → SafetyResult × Cache
  unfolding guard check_agent_output
  guard_output_with_cache key content cache =
      guard (sha256 content) (check_agent_output mode shield content) key cache
