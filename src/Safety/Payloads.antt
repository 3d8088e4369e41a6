-- ===== src/Safety/Payloads.antt =====
-- What the key of the input cache tells apart: src/myloware/workflows/langgraph/safety_cache.py,
-- `guard_input_with_cache`.
use mathlib.Core.List.{append_assoc}
use mylo_ware.Common.{inl, ◌∙◌, String, ◌≡◌, refl, true, none, some, [], ◌∷◌, ◌++◌, select}
use mylo_ware.Common.Text.{codes}
use mylo_ware.Config.ProviderModes.{real}
use mylo_ware.Safety.Shields.{
  Text, Answer, response, Message, check_content_safety_closed, last_of, check_agent_input,
}
use mylo_ware.Safety.Cache.{
  Cache, lookup, line, payload, maybe_reuse, guard, guard_input_with_cache,
}
use mylo_ware.Safety.CacheLaws.{IsFinal, guard_miss, guard_replays}

abbrev pub user : Text → Message
user t = record { role = some (codes "user"); content = some t }

-- Two messages in one: the first, a line break, and the second as the payload writes it.
abbrev pub joined : Text → Text → Text
joined a b = a ++ codes "\nuser: " ++ b

payload_joined : (a b : Text) → payload (user a ∷ user b ∷ []) ≡ payload (user (joined a b) ∷ [])
unfolding payload line
payload_joined a b = simp append_assoc

-- The verdict on the last of two user messages is given to one message that spells both: if the
-- shield passes `b`, then after a check of the conversation "a", "b" on a key that was not used
-- before, the single message that consists of `a`, a line break, "user: " and `b` passes under that
-- key, whatever the shield says of `a` or of the whole.
pub joined_passes :
    (sha256 : Text → Text) (shield shield' : Text → Answer) (key : String) (a b : Text)
    (cache : Cache)
    → shield b ≡ response none
    → lookup key cache ≡ none
    → (guard_input_with_cache sha256 real shield' key
        (user (joined a b) ∷ [])
        (guard_input_with_cache sha256 real shield key (user a ∷ user b ∷ []) cache).1).0.safe
      ≡ true
unfolding guard_input_with_cache
joined_passes sha256 shield shield' key a b cache clean fresh =
    let hash = sha256 (payload (user a ∷ user b ∷ [])) in
    let asked = check_agent_input real shield (user a ∷ user b ∷ []) in
    let safe : asked.safe ≡ true =
      unfold check_agent_input last_of select in (check_content_safety_closed shield b).0.1 clean in
    let first = guard_miss hash asked key cache (unfold maybe_reuse in rw (fresh, maybe_reuse)) in
    let final : IsFinal (guard hash asked key cache).0 = rw first (inl safe) in
    let (same, kept) =
      guard_replays hash asked (check_agent_input real shield' (user (joined a b) ∷ [])) key cache
        (guard hash asked key cache).1 final refl in
    rw (← payload_joined a b) (same ∙ rw first safe)
