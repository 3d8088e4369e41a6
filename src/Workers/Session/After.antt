-- ===== src/Workers/Session/After.antt =====
-- What holds after a statement of a handler: of the value and the session if it goes on, of the
-- session if it ends the handler.
use mylo_ware.Common.{
  ◌≡◌, refl, String, Bool, true, false, ◌⊎◌, inl, inr, Option, none, some, if◌then◌else◌,
}
use mylo_ware.Workers.Session.{
  Tables, Session, begun, Exec, Flow, go, stop, Outcome, pure, end_with, select_from, attempt,
  ◌>>=◌, continue, write, written, flow_of,
}
use mylo_ware.Workers.Session.Preserves.{Preserves}

abbrev pub Holds :
    {A : Type 0} → (A → Session → Type 0) → (Session → Type 0) → Flow A → Session → Type 0
Holds P R (go a) s = P a s
Holds P R (stop o) s = R s

pub record After {A : Type 0} (P : A → Session → Type 0) (R : Session → Type 0)
    (r : Flow A × Session) : Type 0 where
  pub at : Holds P R r.0 r.1

module _ {A B : Type 0} {P : A → Session → Type 0} {Q : B → Session → Type 0}
    {R : Session → Type 0} where
  After-continue :
      (r : Flow A) (s : Session) (f : A → Exec B)
      → After P R (r, s)
      → ((a : A) (s' : Session) → P a s' → After Q R (f a s'))
      → After Q R (continue r f s)
  After-continue (go a) s f h k = k a s h.at
  After-continue (stop o) s f h k = record { at = h.at }

  pub After-bind :
      (m : Exec A) (f : A → Exec B) (s : Session)
      → After P R (m s)
      → ((a : A) (s' : Session) → P a s' → After Q R (f a s'))
      → After Q R ((m >>= f) s)
  unfolding ◌>>=◌
  After-bind m f s h k = After-continue (m s).0 (m s).1 f h k

module _ {A : Type 0} {P : A → Session → Type 0} {R : Session → Type 0} where
  pub After-pure : (a : A) (s : Session) → P a s → After P R (pure a s)
  unfolding pure
  After-pure a s h = record { at = h }

  pub After-end_with : (o : Outcome) (s : Session) → R s → After P R (end_with {A = A} o s)
  unfolding end_with
  After-end_with o s h = record { at = h }

  After-flow_of :
      (b : Option String) (a : A) (s : Session) → P a s → R s → After P R (flow_of b a, s)
  After-flow_of none a s h k = record { at = h }
  After-flow_of (some message) a s h k = record { at = k }

  pub After-select_from :
      (f : Tables → A) (s : Session)
      → P (f s.tables) (begun s)
      → R (begun s)
      → After P R (select_from f s)
  unfolding select_from
  After-select_from f s h k = After-flow_of s.broken (f s.tables) (begun s) h k

  pub After-attempt :
      (r : String ⊎ A) (s : Session) → ((a : A) → r ≡ inr a → P a s) → R s → After P R (attempt r s)
  unfolding attempt
  After-attempt (inl message) s h k = record { at = k }
  After-attempt (inr a) s h k = record { at = h a refl }

  pub After-if :
      (b : Bool) (m n : Exec A) (s : Session)
      → (b ≡ true → After P R (m s))
      → (b ≡ false → After P R (n s))
      → After P R ((if b then m else n) s)
  After-if true m n s km kn = km refl
  After-if false m n s km kn = kn refl

module _ {P : Unit → Session → Type 0} {R : Session → Type 0} where
  After-written :
      (b : Option String) (f : Tables → Tables) (s : Session)
      → P tt (record s { tables = f s.tables; in_transaction = true })
      → R s
      → After P R (written b f s)
  After-written none f s h k = record { at = h }
  After-written (some message) f s h k = record { at = k }

  pub After-write :
      (f : Tables → Tables) (s : Session)
      → P tt (record s { tables = f s.tables; in_transaction = true })
      → R s
      → After P R (write f s)
  unfolding write
  After-write f s h k = After-written s.broken f s h k

-- An invariant of the session, however a statement ends.
module _ {A : Type 0} {P : Session → Type 0} where
  both_ways : (r : Flow A) (s : Session) → P s → After (λ a. P) P (r, s)
  both_ways (go a) s h = record { at = h }
  both_ways (stop o) s h = record { at = h }

  pub After-Preserves : (m : Exec A) (s : Session) → Preserves P m → P s → After (λ a. P) P (m s)
  After-Preserves m s k h = both_ways (m s).0 (m s).1 (k.holds h)

  one_way : (r : Flow A) (s : Session) → After (λ a. P) P (r, s) → P s
  one_way (go a) s h = h.at
  one_way (stop o) s h = h.at

  pub Preserves-After :
      (m : Exec A) → ((s : Session) → P s → After (λ a. P) P (m s)) → Preserves P m
  Preserves-After m k = record { holds = λ {s} h. one_way (m s).0 (m s).1 (k s h) }
