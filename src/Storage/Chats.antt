-- ===== src/Storage/Chats.antt =====
-- The table of chat sessions and `ChatSessionRepository` of
-- src/myloware/storage/{models,repositories}.py. The column `user_id` is unique.
use mylo_ware.Common.{
  ℕ, String, ◌≡◌, refl, Bool, Option, none, some, List, [], ◌∷◌, ◌++◌, arith, eq_iff, str_eq,
  if◌then◌else◌, select, length, ltb, not, is_some, Option-cases, inl, inr,
}
use mylo_ware.Common.Rows.{update_where, first_where}

pub record ChatSession : Type 0 where
  pub id : ℕ
  pub user_id : String
  pub session_id : String
  pub created_at : ℕ
  pub updated_at : ℕ

abbrev pub is_of : String → ChatSession → Bool
is_of user c = str_eq c.user_id user

abbrev session_of : Option ChatSession → Option String
session_of none = none
session_of (some c) = some c.session_id

unfoldable pub get_session : String → List ChatSession → Option String
unfolding first_where
get_session user chats = session_of (first_where (is_of user) chats)

-- `id` is the fresh `uuid4` of a new row.
unfoldable pub create_or_update_session :
    ℕ → String → String → ℕ → List ChatSession → List ChatSession
unfolding first_where update_where
create_or_update_session id user session now chats = elim (first_where (is_of user) chats) [
  | some c ↦
      update_where (is_of user) (λ c. record c { session_id = session; updated_at = now }) chats
  | none ↦
      chats
      ++ record {
        id = id;
        user_id = user;
        session_id = session;
        created_at = now;
        updated_at = now;
      }
        ∷ []
]

unfoldable pub delete_session : String → List ChatSession → Bool × List ChatSession
unfolding select
delete_session user chats =
    (ltb 0 (length (select (is_of user) chats)), select (λ c. not (is_of user c)) chats)

get-insert :
    (user other session : String) (c : ChatSession) (chats : List ChatSession)
    → c.user_id ≡ user
    → c.session_id ≡ session
    → first_where (is_of user) chats ≡ none
    → get_session other (chats ++ c ∷ [])
      ≡ (if str_eq user other then some session else get_session other chats)
unfolding get_session first_where
get-insert user other session c [] e f h = ground (arith, e, f)
get-insert user other session c (d ∷ rest) e f h = ground (
  arith,
  e,
  f,
  h,
  eq_iff user other,
  eq_iff d.user_id user,
  eq_iff d.user_id other,
  get-insert user other session c rest e f,
)

get-change :
    (user other session : String) (now : ℕ) (chats : List ChatSession)
    → get_session other
        (update_where (is_of user) (λ c. record c { session_id = session; updated_at = now }) chats)
      ≡ elim (get_session other chats) [
        | none ↦ none
        | some s ↦ some (if str_eq user other then session else s)
      ]
unfolding get_session first_where update_where
get-change user other session now [] = refl
get-change user other session now (d ∷ rest) = ground (
  arith,
  eq_iff user other,
  eq_iff d.user_id user,
  eq_iff d.user_id other,
  get-change user other session now rest,
)

get-found :
    (user : String) (chats : List ChatSession) {c : ChatSession}
    → first_where (is_of user) chats ≡ some c
    → get_session user chats ≡ some c.session_id
unfolding get_session
get-found user chats h = rw h refl

get-create_or_update :
    (id : ℕ) (user other session : String) (now : ℕ) (chats : List ChatSession)
    → get_session other (create_or_update_session id user session now chats)
      ≡ (if str_eq user other then some session else get_session other chats)
get-create_or_update id user other session now chats =
    elim (Option-cases (first_where (is_of user) chats)) [
      | inl e ↦
          unfold create_or_update_session in
          rw (e, create_or_update_session) (get-insert user other session _ chats refl refl e)
      | inr (c, e) ↦
          unfold create_or_update_session in
          rw (e, create_or_update_session)
            (ground (
              arith,
              get-change user other session now chats,
              get-found user chats {c = c} e,
              eq_iff user other,
            ))
    ]

get-delete :
    (user other : String) (chats : List ChatSession)
    → get_session other (delete_session user chats).1
      ≡ (if str_eq user other then none else get_session other chats)
unfolding delete_session get_session first_where
get-delete user other [] = ground arith
get-delete user other (d ∷ rest) = ground (
  arith,
  eq_iff user other,
  eq_iff d.user_id user,
  eq_iff d.user_id other,
  get-delete user other rest,
)

delete-reports :
    (user : String) (chats : List ChatSession)
    → (delete_session user chats).0 ≡ is_some (get_session user chats)
unfolding delete_session get_session first_where
delete-reports user [] = refl
delete-reports user (d ∷ rest) = ground (arith, delete-reports user rest)

-- The table of chat sessions is a map from users to sessions: after a session is stored for a user,
-- that user has it, and no other user's changes; after it is deleted, the user has none, and no other
-- user's changes, and the deletion reports whether there was one.
pub chat_sessions_map :
    (id : ℕ) (user other session : String) (now : ℕ) (chats : List ChatSession)
    → (get_session other (create_or_update_session id user session now chats)
        ≡ (if str_eq user other then some session else get_session other chats))
      × (get_session other (delete_session user chats).1
          ≡ (if str_eq user other then none else get_session other chats))
      × ((delete_session user chats).0 ≡ is_some (get_session user chats))
chat_sessions_map id user other session now chats = (
  get-create_or_update id user other session now chats,
  get-delete user other chats,
  delete-reports user chats,
)
