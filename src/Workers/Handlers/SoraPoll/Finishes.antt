-- ===== src/Workers/Handlers/SoraPoll/Finishes.antt =====
-- The loop of the branch `sora.poll` of src/myloware/workers/handlers.py where all videos are ready.
use mathlib.Core.Path.{subst}
use mylo_ware.Common.{
  ℕ, ◌+◌, String, ◌≡◌, refl, ap, ◌∙◌, Bool, true, false, none, some, inl, inr, List, [], ◌∷◌, arith,
  eq_iff, str_eq, All, Bool-cases, if◌then◌else◌,
}
use mylo_ware.Common.Json.{Fields}
use mylo_ware.Storage.Artifacts.{video_clip}
use mylo_ware.Workers.Session.{Session, Exec, go, pure, attempt, ◌>>=◌}
use mylo_ware.Workers.Session.After.{After}
use mylo_ware.Workers.Session.Preserves.{Both}
use mylo_ware.Workers.Handlers.Clips.{OneClip, stored_clip}
use mylo_ware.Workers.Handlers.OneClipPoll.{Knows, Loop, poll_tasks-Loop}
use mylo_ware.Workers.Session.Steps.{bind_goes, attempt_goes, write_goes}
use mylo_ware.Workers.Handlers.Services.{Services, create_artifact}
use mylo_ware.Workers.Handlers.SoraPoll.{
  Poll, one_of, video_index_for, read_state, clip_metadata, transcode_failed, store_clip,
  keep_transcoded, transcode, fetch_clip, see_answer, poll_task, poll_tasks,
}

-- The video of the task is complete, and can be fetched and transcoded.
pub record VideoReady (sv : Services) (i : ℕ) (mapping : List (String × Fields)) (t : String)
    : Type 0 where
  pub job : Fields
  pub uri : String
  pub url : String
  pub retrieves : sv.retrieve_video t ≡ inr job
  pub completed : (read_state sv job).status ≡ "completed"
  pub downloads : sv.download t ≡ inr uri
  pub transcodes : sv.transcode uri i (video_index_for sv t mapping) ≡ inr (some url)
  pub filled : str_eq url "" ≡ false

-- The loop went on: no task failed, none was forgotten, and the session can be written to.
pub record Went (p p' : Poll) (s s' : Session) : Type 0 where
  pub not_failed : p'.failed_now ≡ p.failed_now
  pub remembers : (t : String) → one_of t p.existing ≡ true → one_of t p'.existing ≡ true
  pub writable : s'.broken ≡ none

module _ (sv : Services) (i : ℕ) (mapping : List (String × Fields)) where
  create_goes :
      (id : ℕ) (uri : String) (meta : Fields) (s : Session)
      → s.broken ≡ none
      → (s' : Session) × (create_artifact sv id i "producer" video_clip uri meta s ≡ (go tt, s'))
        × (s'.broken ≡ none)
  unfolding create_artifact
  create_goes id uri meta s ok = (_, write_goes _ s ok, ok)

  store_goes :
      (t : String) (p : Poll) (uri : String) (s : Session)
      → s.broken ≡ none
      → (p' : Poll) × (s' : Session) × (store_clip sv i mapping t p uri s ≡ (go (p', true), s'))
        × Went p p' s s'
        × (one_of t p'.existing ≡ true)
  unfolding store_clip pure
  store_goes t p uri s ok =
      let (s', made, ok') = create_goes (sv.clip_id t) uri (clip_metadata sv t mapping) s ok in
      let p' : Poll = record p { existing = t ∷ p.existing; completed_now = p.completed_now + 1 } in
      (
        p',
        s',
        bind_goes
            (create_artifact sv (sv.clip_id t) i "producer" video_clip uri
              (clip_metadata sv t mapping))
            (λ a. pure (p', true)) s made,
        record { not_failed = refl; remembers = λ u h. ground (arith, h); writable = ok' },
        ground (arith, eq_iff t t),
      )

  fetch_goes :
      (t : String) (p : Poll) (s : Session)
      → s.broken ≡ none
      → VideoReady sv i mapping t
      → (p' : Poll) × (s' : Session) × (fetch_clip sv i mapping t p s ≡ (go (p', true), s'))
        × Went p p' s s'
        × (one_of t p'.existing ≡ true)
  unfolding fetch_clip
  fetch_goes t p s ok v =
      let (p', s', stored, went, known) = store_goes t p v.url s ok in
      let transcoded : (attempt (sv.download t) >>= transcode sv i mapping t) s
          ≡ (go (some v.url), s) =
        bind_goes (attempt (sv.download t)) (transcode sv i mapping t) s
          (attempt_goes (sv.download t) s v.downloads)
        ∙ attempt_goes (sv.transcode v.uri i (video_index_for sv t mapping)) s v.transcodes in
      let kept : keep_transcoded sv i mapping t p (some v.url) s ≡ (go (p', true), s') =
        ap (λ b. (if b then pure (transcode_failed sv p) else store_clip sv i mapping t p v.url) s)
          v.filled
        ∙ stored in
      (
        p',
        s',
        bind_goes (attempt (sv.download t) >>= transcode sv i mapping t)
              (keep_transcoded sv i mapping t p) s transcoded
            ∙ kept,
        went,
        known,
      )

  if_false :
      (b : Bool) (m n : Exec (Poll × Bool)) (s : Session) → b ≡ false → (if b then m else n) s ≡ n s
  if_false b m n s e = rw e refl

  if_true :
      (b : Bool) (m n : Exec (Poll × Bool)) (s : Session) → b ≡ true → (if b then m else n) s ≡ m s
  if_true b m n s e = rw e refl

  answer_goes :
      (t : String) (p : Poll) (job : Fields) (s : Session)
      → (read_state sv job).status ≡ "completed"
      → see_answer sv i mapping t p job s
        ≡ fetch_clip sv i mapping t (record p { statuses = (t, read_state sv job) ∷ p.statuses }) s
  unfolding see_answer
  answer_goes t p job s done =
      if_false (str_eq (read_state sv job).status "failed") _ _ s (ap (λ x. str_eq x "failed") done)
      ∙ if_true (str_eq (read_state sv job).status "completed") _ _ s
          (ap (λ x. str_eq x "completed") done)

  turn_goes :
      (t : String) (p : Poll) (s : Session)
      → s.broken ≡ none
      → VideoReady sv i mapping t
      → (p' : Poll) × (s' : Session) × (poll_task sv i mapping t p s ≡ (go (p', true), s'))
        × Went p p' s s'
        × (one_of t p'.existing ≡ true)
  unfolding poll_task pure
  turn_goes t p s ok v = elim (Bool-cases (one_of t p.existing)) [
    | inl e ↦
        rw (e, poll_task)
          (_, s, refl, record { not_failed = refl; remembers = λ u h. h; writable = ok }, e)
    | inr e ↦
        let seen : Poll = record p { statuses = (t, read_state sv v.job) ∷ p.statuses } in
        let (p', s', fetched, went, known) = fetch_goes t seen s ok v in
        (
          p',
          s',
          rw (e, poll_task)
              (bind_goes (attempt (sv.retrieve_video t)) (see_answer sv i mapping t p) s
                  (attempt_goes (sv.retrieve_video t) s v.retrieves)
                ∙ answer_goes t p v.job s v.completed
                ∙ fetched),
          record {
            not_failed = went.not_failed;
            remembers = went.remembers;
            writable = went.writable;
          },
          known,
        )
  ]

module _ (sv : Services) (i : ℕ) (mapping : List (String × Fields)) where
  tasks_go :
      (ts : List String) (p : Poll) (s : Session)
      → s.broken ≡ none
      → All (VideoReady sv i mapping) ts
      → (p' : Poll) × (s' : Session) × (poll_tasks sv i mapping ts p s ≡ (go p', s'))
        × Went p p' s s'
        × All (λ t. one_of t p'.existing ≡ true) ts
  unfolding poll_tasks pure
  tasks_go [] p s ok ready =
      (p, s, refl, record { not_failed = refl; remembers = λ u h. h; writable = ok }, tt)
  tasks_go (t ∷ ts) p s ok (v, ready) =
      let (p', s', turn, went, known) = turn_goes sv i mapping t p s ok v in
      let (p'', s'', rest, went', all) = tasks_go ts p' s' went.writable ready in
      (
        p'',
        s'',
        bind_goes (poll_task sv i mapping t p)
              (λ r. if r.1 then poll_tasks sv i mapping ts r.0 else pure r.0) s turn
            ∙ rest,
        record {
          not_failed = went'.not_failed ∙ went.not_failed;
          remembers = λ u h. went'.remembers u (went.remembers u h);
          writable = went'.writable;
        },
        (went'.remembers t known, all),
      )

-- What the loop has stored, where it went on.
poll_tasks-Loop_result :
    (sv : Services) (i : ℕ) (mapping : List (String × Fields)) (ts : List String) (p : Poll)
    (s : Session) {p' : Poll} {s' : Session}
    → poll_tasks sv i mapping ts p s ≡ (go p', s')
    → Loop i p s
    → Loop i p' s'
poll_tasks-Loop_result sv i mapping ts p s {p'} {s'} e h =
    (subst (After (Loop i) (Both OneClip)) e (poll_tasks-Loop sv i mapping ts p s h)).at

each_clip_is_there :
    (i : ℕ) (p : Poll) (s : Session) (ts : List String)
    → Knows i p s
    → All (λ t. str_eq t "" ≡ false) ts
    → All (λ t. one_of t p.existing ≡ true) ts
    → All (λ t. stored_clip i t s.tables.artifacts ≡ true) ts
each_clip_is_there i p s [] k named known = tt
each_clip_is_there i p s (t ∷ ts) k named known =
    (k t named.0 ∙ known.0, each_clip_is_there i p s ts k named.1 known.1)

-- A poll that starts with a session that can be written to, with at most one clip of each task of a
-- run, and with the list of the tasks of the run that have one, and whose pending tasks have names
-- that are not empty and videos that are all complete and can be fetched and transcoded, goes through
-- all of them without a failure: in the end the session shows a clip of each of them among the
-- artifacts of the run, still at most one of each task, and can be written to.
pub poll_tasks-Finishes :
    (sv : Services) (i : ℕ) (mapping : List (String × Fields)) (ts : List String) (p : Poll)
    (s : Session)
    → s.broken ≡ none
    → Loop i p s
    → All (λ t. str_eq t "" ≡ false) ts
    → All (VideoReady sv i mapping) ts
    → (p' : Poll) × (s' : Session) × (poll_tasks sv i mapping ts p s ≡ (go p', s'))
      × Went p p' s s'
      × OneClip s'.tables
      × All (λ t. stored_clip i t s'.tables.artifacts ≡ true) ts
poll_tasks-Finishes sv i mapping ts p s ok loop named ready =
    let (p', s', went_on, went, known) = tasks_go sv i mapping ts p s ok ready in
    let (both, knows) =
      poll_tasks-Loop_result sv i mapping ts p s {p' = p'} {s' = s'} went_on loop in
    (p', s', went_on, went, both.0, each_clip_is_there i p' s' ts knows named known)
