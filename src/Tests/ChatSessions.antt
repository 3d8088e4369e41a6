-- ===== src/Tests/ChatSessions.antt =====
-- Chat sessions, feedback, audit rows, runs and video tasks of src/myloware/storage/repositories.py.
use mylo_ware.Common.{◌≡◌, refl, none, some, List, [], ◌∷◌, if◌then◌else◌, is_some, str_eq}
use mylo_ware.Storage.Chats.{
  ChatSession, get_session, create_or_update_session, delete_session, chat_sessions_map,
}

abbrev ann_chat : ChatSession
ann_chat = record { id = 1; user_id = "ann"; session_id = "s1"; created_at = 10; updated_at = 10 }

abbrev chats : List ChatSession
chats = ann_chat ∷ record ann_chat { id = 2; user_id = "bob"; session_id = "s2" } ∷ []

chat_sessions_map_example :
    (get_session "bob" (create_or_update_session 3 "ann" "s3" 20 chats)
      ≡ (if str_eq "ann" "bob" then some "s3" else get_session "bob" chats))
    × (get_session "bob" (delete_session "ann" chats).1
        ≡ (if str_eq "ann" "bob" then none else get_session "bob" chats))
    × ((delete_session "ann" chats).0 ≡ is_some (get_session "ann" chats))
chat_sessions_map_example = chat_sessions_map 3 "ann" "bob" "s3" 20 chats

session_replaced : get_session "ann" (create_or_update_session 3 "ann" "s3" 20 chats) ≡ some "s3"
unfolding get_session create_or_update_session
session_replaced = refl
