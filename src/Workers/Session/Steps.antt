-- ===== src/Workers/Session/Steps.antt =====
-- Statements of a handler that go on.
use mylo_ware.Common.{String, ◌≡◌, refl, ◌⊎◌, inr, none, true, arith}
use mylo_ware.Workers.Session.{Tables, Session, Exec, go, attempt, ◌>>=◌, write}

pub bind_goes :
    {A B : Type 0} (m : Exec A) (f : A → Exec B) (s : Session) {a : A} {s' : Session}
    → m s ≡ (go a, s')
    → (m >>= f) s ≡ f a s'
unfolding ◌>>=◌
bind_goes m f s h = rw (h, ◌>>=◌) refl

pub attempt_goes :
    {A : Type 0} (r : String ⊎ A) (s : Session) {a : A} → r ≡ inr a → attempt r s ≡ (go a, s)
unfolding attempt
attempt_goes r s h = rw (h, attempt) refl

pub write_goes :
    (f : Tables → Tables) (s : Session)
    → s.broken ≡ none
    → write f s ≡ (go tt, record s { tables = f s.tables; in_transaction = true })
unfolding write
write_goes f s ok = ground (arith, ok)
