-- ===== src/Safety/Shields.antt =====
-- src/myloware/safety/shields.py: a shield's answer, and the checks that fail closed.
use mylo_ware.Common.{
  ℕ, ◌≡◌, ◌↔◌, refl, Bool, true, false, Option, none, some, List, [], ◌∷◌, ◌++◌, arith, select,
  or_else,
}
use mylo_ware.Common.Text.{codes, codes_eq}
use mylo_ware.Config.ProviderModes.{ProviderMode, real}

abbrev pub Text : Type 0
Text = List ℕ

pub record SafetyResult : Type 0 where
  pub safe : Bool
  pub reason : Option Text
  pub category : Option Text
  pub severity : Option Text

abbrev pub passed : SafetyResult
passed = record { safe = true; reason = none; category = none; severity = none }

abbrev pub failed : Text → Option Text → Option Text → SafetyResult
failed reason category severity = record {
  safe = false;
  reason = some reason;
  category = category;
  severity = severity;
}

-- The violation of a shield's response; `none` is an attribute that is missing.
pub record Violation : Type 0 where
  pub user_message : Option Text
  -- the attribute that is there may be None
  pub explanation : Option (Option Text)
  pub category : Option Text
  pub severity : Option Text

-- What the call of the shield does: it answers, or it raises with a message.
pub data Answer : Type 0 where
  response : Option Violation → Answer
  raises : Text → Answer

-- The first text of the two that is not empty.
abbrev text_or : Option Text → Option Text → Option Text
text_or none d = d
text_or (some []) d = d
text_or (some (c ∷ s)) d = some (c ∷ s)

-- `from_shield_response`
unfoldable pub from_shield_response : Option Violation → SafetyResult
from_shield_response none = passed
from_shield_response (some v) = record {
  safe = false;
  reason = text_or v.user_message (or_else v.explanation (some (codes "Content flagged")));
  category = v.category;
  severity = v.severity;
}

-- `check_content_safety`; `shield` is the safety service, asked about the content.
unfoldable pub check_content_safety : ProviderMode → (Text → Answer) → Text → SafetyResult
unfolding from_shield_response
check_content_safety real shield content = elim (shield content) [
  | response v ↦ from_shield_response v
  | raises e ↦ failed (codes "Safety check unavailable: " ++ e) (some (codes "system_error")) none
]
check_content_safety _ shield content = passed

-- `check_agent_output` and `check_brief_safety` hand their text on.
unfoldable pub check_agent_output : ProviderMode → (Text → Answer) → Text → SafetyResult
unfolding check_content_safety
check_agent_output mode shield content = check_content_safety mode shield content

-- A message of a conversation; either key may be missing.
pub record Message : Type 0 where
  pub role : Option Text
  pub content : Option Text

abbrev pub is_user : Message → Bool
is_user m = elim m.role [ none ↦ false | some r ↦ codes_eq r (codes "user") ]

unfoldable pub last_of : List Message → Option Message
last_of [] = none
last_of (m ∷ ms) = elim (last_of ms) [ none ↦ some m | some l ↦ some l ]

-- `check_agent_input`: the last user message is checked.
unfoldable pub check_agent_input : ProviderMode → (Text → Answer) → List Message → SafetyResult
unfolding check_content_safety last_of select
check_agent_input mode shield messages = elim (last_of (select is_user messages)) [
  | none ↦ passed
  | some m ↦ check_content_safety mode shield (or_else m.content [])
]

-- The check fails closed: with the real provider, content passes exactly when the shield answered
-- and reported no violation; where the shield raises, the content is unsafe, with the message of the
-- error in its reason and the category "system_error".
pub check_content_safety_closed :
    (shield : Text → Answer) (content : Text)
    → (((check_content_safety real shield content).safe ≡ true) ↔ (shield content ≡ response none))
      × ((e : Text)
          → shield content ≡ raises e
          → check_content_safety real shield content ≡ record {
            safe = false;
            reason = some (codes "Safety check unavailable: " ++ e);
            category = some (codes "system_error");
            severity = none;
          })
unfolding check_content_safety
check_content_safety_closed shield content =
    (closed (shield content) refl, λ e h. rw (h, check_content_safety) refl)
  where
    closed :
        (a : Answer)
        → shield content ≡ a
        → ((check_content_safety real shield content).safe ≡ true) ↔ (a ≡ response none)
    closed a e = ground (arith, e)
