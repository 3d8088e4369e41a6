-- ===== src/Common/Text.antt =====
-- Texts as lists of code points, where the program looks inside them.
use Prim.Native.Char.{code}
use Prim.Native.Nat.{ℕ, ◌+◌}
use Prim.Native.String.{String}
use mathlib.Core.Path.{◌≡◌, refl}
use mathlib.Core.Logic.{◌↔◌}
use mathlib.Core.Bool.{Bool, true, false, ◌&&◌, ◌||◌}
use mathlib.Core.List.{List, [], ◌∷◌, map}
use native.Mathlib.Omega.{arith}
use mylo_ware.Common.Tests.{leb, ◌==◌, if◌then◌else◌}

-- The code points of a text.
abbrev pub codes : String → List ℕ
codes String.[] = []
codes (String.◌∷◌ c s) = code c ∷ codes s

abbrev pub codes_eq : List ℕ → List ℕ → Bool
codes_eq [] [] = true
codes_eq [] (d ∷ t) = false
codes_eq (c ∷ s) [] = false
codes_eq (c ∷ s) (d ∷ t) = c == d && codes_eq s t

pub codes_eq_iff : (s t : List ℕ) → (codes_eq s t ≡ true) ↔ (s ≡ t)
codes_eq_iff [] [] = (λ h. refl, λ h. refl)
codes_eq_iff [] (d ∷ t) = (λ h. absurd (cc), λ h. absurd (cc))
codes_eq_iff (c ∷ s) [] = (λ h. absurd (cc), λ h. absurd (cc))
codes_eq_iff (c ∷ s) (d ∷ t) = ground (arith, codes_eq_iff s t)

-- `str.lower` for the characters whose lower case is ASCII: A to Z, and the Kelvin sign U+212A. It
-- is used where the result is compared with ASCII words.
unfoldable pub lower_code : ℕ → ℕ
lower_code c = if leb 65 c && leb c 90 then c + 32 else if c == 8490 then 107 else c

unfoldable pub lower : List ℕ → List ℕ
lower s = map lower_code s

lower_code_idem : (c : ℕ) → lower_code (lower_code c) ≡ lower_code c
unfolding lower_code
lower_code_idem c = ground arith

pub lower_idem : (s : List ℕ) → lower (lower s) ≡ lower s
unfolding lower
lower_idem [] = refl
lower_idem (c ∷ s) = cc (lower_code_idem c, lower_idem s)

-- `text.startswith(prefix)`, `text.endswith(suffix)`, over the code points.
unfoldable pub starts_with : List ℕ → List ℕ → Bool
starts_with s [] = true
starts_with [] (p ∷ ps) = false
starts_with (c ∷ s) (p ∷ ps) = c == p && starts_with s ps

unfoldable pub ends_with : List ℕ → List ℕ → Bool
ends_with [] suffix = codes_eq [] suffix
ends_with (c ∷ s) suffix = codes_eq (c ∷ s) suffix || ends_with s suffix

-- `str.strip` for the ASCII white space.
abbrev pub is_space : ℕ → Bool
is_space c = c == 32 || (leb 9 c && leb c 13) || (leb 28 c && leb c 31)

-- A text without the characters at its end that pass `test`.
unfoldable pub rstrip_by : (ℕ → Bool) → String → String
rstrip_by test String.[] = String.[]
rstrip_by test (String.◌∷◌ c s) = elim (rstrip_by test s) [
  | String.[] ↦ if test (code c) then String.[] else String.◌∷◌ c String.[]
  | String.◌∷◌ d t ↦ String.◌∷◌ c (String.◌∷◌ d t)
]

unfoldable pub lstrip_by : (ℕ → Bool) → String → String
lstrip_by test String.[] = String.[]
lstrip_by test (String.◌∷◌ c s) =
    let rest = lstrip_by test s in if test (code c) then rest else String.◌∷◌ c s

unfoldable pub strip : String → String
unfolding rstrip_by lstrip_by
strip s = rstrip_by is_space (lstrip_by is_space s)

-- `s.rstrip("/")`
unfoldable pub rstrip_slash : String → String
unfolding rstrip_by
rstrip_slash s = rstrip_by (λ c. c == 47) s
