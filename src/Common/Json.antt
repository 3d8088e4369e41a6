-- ===== src/Common/Json.antt =====
-- Values that the program stores in JSON columns, and the dictionary operations it makes on them.
use Prim.Native.Nat.{ℕ}
use Prim.Native.String.{String}
use mathlib.Core.Path.{◌≡◌, refl}
use mathlib.Core.Bool.{Bool, true, false}
use mathlib.Core.Option.{Option, none, some}
use native.Mathlib.Omega.{arith}
use text.Mathlib.TextEquality.{eq_iff}
use text.Mathlib.TextPositions.{eq_refl}
use mylo_ware.Common.Tests.{str_eq, ◌==◌, if◌then◌else◌}

mutual
  pub data Json : Type 0 where
    null : Json
    bool : Bool → Json
    num : ℕ → Json
    str : String → Json
    arr : Items → Json
    obj : Fields → Json

  pub data Items : Type 0 where
    nil : Items
    cons : Json → Items → Items

  pub data Fields : Type 0 where
    end : Fields
    field : String → Json → Fields → Fields

-- The truth value of a JSON value: None, False, 0, "", [] and {} are false.
unfoldable pub truthy : Json → Bool
truthy null = false
truthy (bool b) = b
truthy (num n) = if n == 0 then false else true
truthy (str s) = if str_eq s "" then false else true
truthy (arr nil) = false
truthy (arr (cons x xs)) = true
truthy (obj end) = false
truthy (obj (field k v fs)) = true

-- `d.get(k)`
unfoldable pub get : String → Fields → Option Json
get k end = none
get k (field j v fs) = if str_eq j k then some v else get k fs

-- `d.get(k) or None`: a value that is false counts as missing.
unfoldable pub get_true : String → Fields → Option Json
unfolding get truthy
get_true key fs = elim (get key fs) [ none ↦ none | some v ↦ if truthy v then some v else none ]

-- `d.get(k) == text`
unfoldable pub is_text : String → String → Fields → Bool
unfolding get
is_text k text fs = elim (get k fs) [ some (str s) ↦ str_eq s text | _ ↦ false ]

-- `d[k] = v`: an old key keeps its place.
unfoldable pub put : String → Json → Fields → Fields
put k v end = field k v end
put k v (field j w fs) = if str_eq j k then field j v fs else field j w (put k v fs)

pub get-put :
    (k j : String) (v : Json) (fs : Fields)
    → get j (put k v fs) ≡ (if str_eq k j then some v else get j fs)
unfolding get put
get-put k j v end = refl
get-put k j v (field i w fs) = ground (arith, eq_iff k j, eq_iff i k, eq_iff i j, get-put k j v fs)

pub get-put_self : (k : String) (v : Json) (fs : Fields) → get k (put k v fs) ≡ some v
get-put_self k v fs = simp (get-put, eq_refl)
