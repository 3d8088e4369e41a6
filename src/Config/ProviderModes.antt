-- ===== src/Config/ProviderModes.antt =====
-- src/myloware/config/provider_modes.py: the effective mode of each provider.
use mylo_ware.Common.{
  ℕ, String, ◌≡◌, ◌↔◌, Bool, true, false, ◌||◌, List, [], ◌∷◌, arith, if◌then◌else◌,
}
use mylo_ware.Common.Text.{codes, codes_eq, codes_eq_iff, is_space, lower, lower_code}

pub data ProviderMode : Type 0 where
  real fake off : ProviderMode

-- A value of the settings object, as far as the coercions look at it.
pub data Setting : Type 0 where
  text : List ℕ → Setting
  flag : Bool → Setting
  other : Setting

-- `_coerce_mode`
unfoldable pub coerce_mode : Setting → ProviderMode → ProviderMode
unfolding lower lower_code
coerce_mode (text s) default =
    let lowered = lower s in
    if codes_eq lowered (codes "real")
    then real
    else if codes_eq lowered (codes "fake")
    then fake
    else if codes_eq lowered (codes "off")
    then off
    else default
coerce_mode (flag b) default = default
coerce_mode other default = default

abbrev one_of : List ℕ → List (List ℕ) → Bool
one_of s [] = false
one_of s (w ∷ ws) = codes_eq s w || one_of s ws

-- `str.strip`, over the code points.
unfoldable pub strip_left : List ℕ → List ℕ
strip_left [] = []
strip_left (c ∷ s) = let rest = strip_left s in if is_space c then rest else c ∷ s

-- A white space goes if nothing else comes after it.
unfoldable pub strip_right : List ℕ → List ℕ
strip_right [] = []
strip_right (c ∷ s) = elim (strip_right s) [
  | [] ↦ if is_space c then [] else c ∷ []
  | d ∷ t ↦ c ∷ d ∷ t
]

-- `_coerce_bool`
unfoldable pub coerce_bool : Setting → Bool → Bool
unfolding lower lower_code strip_left strip_right
coerce_bool (flag b) default = b
coerce_bool (text s) default =
    let lowered = lower (strip_right (strip_left s)) in
    if one_of lowered (codes "1" ∷ codes "true" ∷ codes "yes" ∷ codes "y" ∷ codes "on" ∷ [])
    then true
    else if one_of lowered (codes "0" ∷ codes "false" ∷ codes "no" ∷ codes "n" ∷ codes "off" ∷ [])
    then false
    else default
coerce_bool other default = default

-- `_effective_mode`
unfoldable pub effective_mode : ProviderMode → Bool → ProviderMode
effective_mode real true = fake
effective_mode mode use_fake_providers = mode

pub record Settings : Type 0 where
  pub llama_stack_provider : Setting
  pub sora_provider : Setting
  pub remotion_provider : Setting
  pub upload_post_provider : Setting
  pub use_fake_providers : Setting

unfoldable pub effective : Setting → Settings → ProviderMode
unfolding coerce_mode coerce_bool effective_mode
effective provider s =
    effective_mode (coerce_mode provider real) (coerce_bool s.use_fake_providers false)

unfoldable pub effective_llama_stack_provider : Settings → ProviderMode
unfolding effective
effective_llama_stack_provider s = effective s.llama_stack_provider s

unfoldable pub effective_sora_provider : Settings → ProviderMode
unfolding effective
effective_sora_provider s = effective s.sora_provider s

unfoldable pub effective_remotion_provider : Settings → ProviderMode
unfolding effective
effective_remotion_provider s = effective s.remotion_provider s

unfoldable pub effective_upload_post_provider : Settings → ProviderMode
unfolding effective
effective_upload_post_provider s = effective s.upload_post_provider s

-- The setting is the word, in any case.
abbrev pub Spells : String → Setting → Type 0
Spells word (text s) = lower s ≡ codes word
Spells word (flag b) = ⊥
Spells word other = ⊥

off_iff :
    (p : Setting) (fakes : Bool)
    → (effective_mode (coerce_mode p real) fakes ≡ off) ↔ Spells "off" p
unfolding effective_mode coerce_mode
off_iff (text s) fakes = ground (
  arith,
  codes_eq_iff (lower s) (codes "real"),
  codes_eq_iff (lower s) (codes "fake"),
  codes_eq_iff (lower s) (codes "off"),
)
off_iff (flag b) fakes = ground arith
off_iff other fakes = ground arith

real_iff :
    (p : Setting) (fakes : Bool)
    → (effective_mode (coerce_mode p real) fakes ≡ real)
      ↔ ((fakes ≡ false) × (¬ Spells "off" p) × (¬ Spells "fake" p))
unfolding effective_mode coerce_mode
real_iff (text s) fakes = ground (
  arith,
  codes_eq_iff (lower s) (codes "real"),
  codes_eq_iff (lower s) (codes "fake"),
  codes_eq_iff (lower s) (codes "off"),
)
real_iff (flag b) fakes = ground arith
real_iff other fakes = ground arith

-- What the settings make of one provider's mode.
abbrev pub Rules : Setting → Bool → ProviderMode → Type 0
Rules p fakes mode =
    ((mode ≡ off) ↔ Spells "off" p)
    × ((mode ≡ real) ↔ ((fakes ≡ false) × (¬ Spells "off" p) × (¬ Spells "fake" p)))

rules : (p : Setting) (fakes : Bool) → Rules p fakes (effective_mode (coerce_mode p real) fakes)
rules p fakes = (off_iff p fakes, real_iff p fakes)

-- For each of the four providers: it is off exactly where its own setting says "off", in any case
-- and whatever the switch `use_fake_providers` says; and it is real exactly where the switch is not
-- on and its setting says neither "off" nor "fake", so that an unreadable setting counts as "real".
pub effective_modes :
    (s : Settings)
    → let fakes = coerce_bool s.use_fake_providers false in
      Rules s.llama_stack_provider fakes (effective_llama_stack_provider s)
      × Rules s.sora_provider fakes (effective_sora_provider s)
      × Rules s.remotion_provider fakes (effective_remotion_provider s)
      × Rules s.upload_post_provider fakes (effective_upload_post_provider s)
unfolding effective effective_llama_stack_provider effective_sora_provider
    effective_remotion_provider effective_upload_post_provider
effective_modes s =
    let fakes = coerce_bool s.use_fake_providers false in
    (
      rules s.llama_stack_provider fakes,
      rules s.sora_provider fakes,
      rules s.remotion_provider fakes,
      rules s.upload_post_provider fakes,
    )
