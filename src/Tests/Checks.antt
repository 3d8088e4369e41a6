-- ===== src/Tests/Checks.antt =====
-- Provider settings and safety checks: src/myloware/config and src/myloware/safety.
use mylo_ware.Common.{◌++◌, ◌≡◌, ◌↔◌, refl, inl, true, false, none, some, [], ◌∷◌}
use mylo_ware.Common.Text.{codes}
use mylo_ware.Config.ProviderModes.{
  real, text, flag, other, Settings, coerce_bool, effective_llama_stack_provider,
  effective_sora_provider, effective_remotion_provider, effective_upload_post_provider,
  effective_modes, Rules,
}
use mylo_ware.Safety.Shields.{
  Text, failed, Answer, response, raises, check_content_safety, check_agent_output,
  check_content_safety_closed,
}
use mylo_ware.Safety.Cache.{Entry, Cache, lookup, guard_input_with_cache, guard_output_with_cache}
use mylo_ware.Safety.CacheLaws.{guard_output_replays}
use mylo_ware.Safety.Payloads.{user, joined, joined_passes}

abbrev settings : Settings
settings = record {
  llama_stack_provider = text (codes "Off");
  sora_provider = text (codes "real");
  remotion_provider = other;
  upload_post_provider = text (codes "fake");
  use_fake_providers = flag true;
}

effective_modes_example :
    let fakes = coerce_bool settings.use_fake_providers false in
    Rules settings.llama_stack_provider fakes (effective_llama_stack_provider settings)
    × Rules settings.sora_provider fakes (effective_sora_provider settings)
    × Rules settings.remotion_provider fakes (effective_remotion_provider settings)
    × Rules settings.upload_post_provider fakes (effective_upload_post_provider settings)
effective_modes_example = effective_modes settings

-- A shield that passes all texts but the empty one, and one that is down.
abbrev lax_shield : Text → Answer
lax_shield [] =
    response
      (some (record { user_message = none; explanation = none; category = none; severity = none }))
lax_shield (c ∷ s) = response none

abbrev broken_shield : Text → Answer
broken_shield s = raises (codes "down")

abbrev same_text : Text → Text
same_text s = s

check_content_safety_closed_example :
    (((check_content_safety real broken_shield (codes "cats")).safe ≡ true)
      ↔ (broken_shield (codes "cats") ≡ response none))
    × ((e : Text)
        → broken_shield (codes "cats") ≡ raises e
        → check_content_safety real broken_shield (codes "cats") ≡ record {
          safe = false;
          reason = some (codes "Safety check unavailable: " ++ e);
          category = some (codes "system_error");
          severity = none;
        })
check_content_safety_closed_example = check_content_safety_closed broken_shield (codes "cats")

abbrev first_cache : Cache
first_cache = (guard_output_with_cache same_text real lax_shield "out" (codes "cats") []).1

guard_output_replays_example :
    ((guard_output_with_cache same_text real broken_shield "out" (codes "cats") first_cache).0.safe
      ≡ (guard_output_with_cache same_text real lax_shield "out" (codes "cats") []).0.safe)
    × ((guard_output_with_cache same_text real broken_shield "out" (codes "cats") first_cache).1
        ≡ first_cache)
guard_output_replays_example =
    guard_output_replays same_text real lax_shield broken_shield "out" (codes "cats") [] first_cache
      (unfold guard_output_with_cache check_agent_output in inl refl) refl

abbrev blocked_entry : Entry
blocked_entry = record { hash = []; verdict = failed (codes "Content flagged") none none }

joined_passes_example :
    (guard_input_with_cache same_text real broken_shield "in"
      (user (joined (codes "bad") (codes "ok")) ∷ [])
      (guard_input_with_cache same_text real lax_shield "in"
        (user (codes "bad") ∷ user (codes "ok") ∷ [])
        []).1).0.safe
    ≡ true
joined_passes_example =
    joined_passes same_text lax_shield broken_shield "in" (codes "bad") (codes "ok") [] refl
      (unfold lookup in refl)
