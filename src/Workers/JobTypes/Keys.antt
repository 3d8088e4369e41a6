-- ===== src/Workers/JobTypes/Keys.antt =====
-- The idempotency keys of src/myloware/workers/job_types.py tell runs and tasks apart.
use Prim.Native.String.{count}
use text.Mathlib.TextLemmas.{append_cancel_left, append_inj}
use mathlib.Core.Option.{some-injective}
use mylo_ware.Common.{
  ℕ, String, ◌<>◌, ◌≡◌, sym, ap, ◌∙◌, Option, none, some, Bool-cases, inl, inr, str_eq,
}
use mylo_ware.Workers.JobTypes.{idempotency_sora_webhook}

-- `str` of the UUIDs of two runs: equally many characters, and the same text for the same run only.
record UuidTexts (uuid_text : ℕ → String) (r r' : ℕ) : Type 0 where
  width : count (uuid_text r) ≡ count (uuid_text r')
  inj : uuid_text r ≡ uuid_text r' → r ≡ r'

same_parts :
    (prefix : String) (uuid_text : ℕ → String) (r r' : ℕ) (i i' : String)
    → UuidTexts uuid_text r r'
    → prefix <> uuid_text r <> ":" <> i ≡ prefix <> uuid_text r' <> ":" <> i'
    → (r ≡ r') × (i ≡ i')
same_parts prefix uuid_text r r' i i' u h =
    let rest = append_cancel_left prefix (uuid_text r <> ":" <> i) (uuid_text r' <> ":" <> i') h in
    let (runs, tails) =
      append_inj {s₁ = uuid_text r} {s₂ = uuid_text r'} {t₁ = ":" <> i} {t₂ = ":" <> i'} rest
        u.width in
    (u.inj runs, append_cancel_left ":" i i' tails)

-- Two webhooks of Sora share an idempotency key only where both their run and their task are the
-- same; without a task id there is no key.
idempotency_sora_webhook-inj :
    (uuid_text : ℕ → String) (r r' : ℕ) (i i' : Option String) {key : String}
    → UuidTexts uuid_text r r'
    → idempotency_sora_webhook uuid_text r i ≡ some key
    → idempotency_sora_webhook uuid_text r' i' ≡ some key
    → (r ≡ r') × (i ≡ i')
unfolding idempotency_sora_webhook
idempotency_sora_webhook-inj uuid_text r r' none i' u h h' = absurd (cc)
idempotency_sora_webhook-inj uuid_text r r' (some i) none u h h' = absurd (cc)
idempotency_sora_webhook-inj uuid_text r r' (some i) (some i') {key} u h h' =
    elim (Bool-cases (str_eq i "")) [
      | inl e ↦ absurd (let k : none ≡ some key = rw e at h in cc)
      | inr e ↦ elim (Bool-cases (str_eq i' "")) [
        | inl e' ↦ absurd (let k : none ≡ some key = rw e' at h' in cc)
        | inr e' ↦
            let k : some ("sora:" <> uuid_text r <> ":" <> i) ≡ some key = rw e at h in
            let k' : some ("sora:" <> uuid_text r' <> ":" <> i') ≡ some key = rw e' at h' in
            let (runs, ids) =
              same_parts "sora:" uuid_text r r' i i' u (some-injective _ _ (k ∙ sym k')) in
            (runs, ap some ids)
      ]
    ]
