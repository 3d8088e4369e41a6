-- ===== src/Workers/Handlers/OneClipPoll.antt =====
-- The poll of src/myloware/workers/handlers.py stores no second clip of a task either.
use mylo_ware.Common.{
  ℕ, ◌+◌, String, ◌≡◌, refl, sym, ap, ◌∙◌, Bool, true, false, ◌&&◌, ◌||◌, Option, none, some, List,
  [], ◌∷◌, ◌++◌, arith, eq_iff, ◌==◌, str_eq, any-append_one, if◌then◌else◌,
}
use mylo_ware.Common.Json
use mylo_ware.Common.Json.{Json, Fields}
use mylo_ware.Storage.Artifacts.{Artifact, video_clip, get_by_run}
use mylo_ware.Storage.Runs.{Run}
use mylo_ware.Workers.Session.{Session, raised, pure, end_with, select_from, attempt, ◌>>=◌}
use mylo_ware.Workers.Session.Preserves.{Preserves, Both, Preserves-end_with}
use mylo_ware.Workers.Session.After.{
  After, After-bind, After-pure, After-end_with, After-select_from, After-attempt, After-if,
  After-write, After-Preserves, Preserves-After,
}
use mylo_ware.Workers.Handlers.Services.{Services, create_artifact, get_artifacts}
use mylo_ware.Workers.Handlers.Clips.{
  OneClip, OneClip-append, task_in, task_of, stored_clip, has_task, any-get_by_run,
  one_of-existing_task_ids, with_trace_task,
}
use mylo_ware.Workers.Handlers.OneClip.{clip_rules}
use mylo_ware.Workers.Handlers.SoraPoll.{
  Poll, one_of, clip_metadata, transcode_failed, store_clip, keep_transcoded, transcode, fetch_clip,
  see_answer, read_state, poll_task, poll_tasks, conclude, report, first_poll, poll_artifacts,
  poll_run, sora_poll, pending_task_ids, read_manifest, truthy_list,
}

-- The loop knows the tasks whose clips the session shows.
abbrev pub Knows : ℕ → Poll → Session → Type 0
Knows i p s =
    (t : String) → str_eq t "" ≡ false → stored_clip i t s.tables.artifacts ≡ one_of t p.existing

abbrev pub Loop : ℕ → Poll → Session → Type 0
Loop i p s = Both OneClip s × Knows i p s

-- The new clip of a task among the artifacts.
stored_clip-append :
    (i : ℕ) (u : String) (artifacts : List Artifact) (n : Artifact)
    → stored_clip i u (artifacts ++ n ∷ [])
      ≡ (stored_clip i u artifacts || (n.run_id == i && has_task u n))
unfolding stored_clip
stored_clip-append i u artifacts n = any-append_one (λ a. a.run_id == i && has_task u a) artifacts n

new_task :
    (t u : String) (n : Artifact)
    → task_of n ≡ task_in (some (Json.str t))
    → str_eq u "" ≡ false
    → has_task u n ≡ str_eq t u
new_task t u n e h = ground (arith, e, h, eq_iff t u, eq_iff t "", eq_iff u "")

named : (t u : String) → task_in (some (Json.str t)) ≡ some u → (str_eq t "" ≡ false) × (t ≡ u)
named t u h = ground (arith, h)

-- One more clip, of a task that the loop did not know.
append-Loop :
    (i : ℕ) (t : String) (p : Poll) (s : Session) (n : Artifact) (count : ℕ)
    → n.run_id ≡ i
    → task_of n ≡ task_in (some (Json.str t))
    → Loop i p s
    → one_of t p.existing ≡ false
    → Loop i
        (record p { existing = t ∷ p.existing; completed_now = count })
        (record s { tables = record s.tables { artifacts = s.tables.artifacts ++ n ∷ [] } })
append-Loop i t p s n count same e (h, knows) new = (
  (
    OneClip-append s.tables.artifacts n
        (λ u q.
          let (filled, tu) = named t u (sym e ∙ q) in
          let none_yet : stored_clip i t s.tables.artifacts ≡ false = knows t filled ∙ new in
          ground (arith, none_yet, tu, same))
        h.0,
    h.1,
  ),
  λ u filled. ground (
    arith,
    stored_clip-append i u s.tables.artifacts n,
    knows u filled,
    new_task t u n e filled,
    same,
  ),
)

module _ (sv : Services) (i : ℕ) (mapping : List (String × Fields)) where
  create_artifact-Loop :
      (id : ℕ) (t : String) (p : Poll) (uri : String) (meta : Fields) (count : ℕ) (s : Session)
      → Json.get "task_id" meta ≡ some (Json.str t)
      → Loop i p s
      → one_of t p.existing ≡ false
      → After
          (λ (a : Unit). Loop i (record p { existing = t ∷ p.existing; completed_now = count }))
          (Both OneClip)
          (create_artifact sv id i "producer" video_clip uri meta s)
  unfolding create_artifact task_of
  create_artifact-Loop id t p uri meta count s e h new =
      After-write _ s
        (append-Loop i t p s _ count refl (ap task_in (with_trace_task sv.trace_id meta ∙ e)) h new)
        h.0

  abbrev Turn : (Poll × Bool) → Session → Type 0
  Turn r s = Loop i r.0 s

  store_clip-Loop :
      (t : String) (p : Poll) (uri : String) (s : Session)
      → Loop i p s
      → one_of t p.existing ≡ false
      → After Turn (Both OneClip) (store_clip sv i mapping t p uri s)
  unfolding store_clip
  store_clip-Loop t p uri s h new =
      After-bind
        (create_artifact sv (sv.clip_id t) i "producer" video_clip uri (clip_metadata sv t mapping))
        (λ a.
          pure (record p { existing = t ∷ p.existing; completed_now = p.completed_now + 1 }, true))
        s
        (create_artifact-Loop (sv.clip_id t) t p uri (clip_metadata sv t mapping)
          (p.completed_now + 1) s (unfold clip_metadata Json.get in refl) h new)
        λ a s' k. After-pure _ s' k

  keep_transcoded-Loop :
      (t : String) (p : Poll) (transcoded : Option String) (s : Session)
      → Loop i p s
      → one_of t p.existing ≡ false
      → After Turn (Both OneClip) (keep_transcoded sv i mapping t p transcoded s)
  keep_transcoded-Loop t p none s h new = After-pure (transcode_failed sv p) s h
  keep_transcoded-Loop t p (some uri) s h new =
      After-if (str_eq uri "") (pure (transcode_failed sv p)) (store_clip sv i mapping t p uri) s
        (λ e. After-pure (transcode_failed sv p) s h) (λ e. store_clip-Loop t p uri s h new)

  fetch_clip-Loop :
      (t : String) (p : Poll) (s : Session)
      → Loop i p s
      → one_of t p.existing ≡ false
      → After Turn (Both OneClip) (fetch_clip sv i mapping t p s)
  unfolding fetch_clip
  fetch_clip-Loop t p s h new =
      After-bind {P = λ (a : Option String). Loop i p}
        (attempt (sv.download t) >>= transcode sv i mapping t) (keep_transcoded sv i mapping t p) s
        (After-bind {P = λ (a : String). Loop i p} (attempt (sv.download t))
          (transcode sv i mapping t) s (After-attempt (sv.download t) s (λ a e. h) h.0)
          λ uri s' k. After-attempt _ s' (λ a e. k) k.0)
        λ transcoded s' k. keep_transcoded-Loop t p transcoded s' k new

  see_answer-Loop :
      (t : String) (p : Poll) (job : Fields) (s : Session)
      → Loop i p s
      → one_of t p.existing ≡ false
      → After Turn (Both OneClip) (see_answer sv i mapping t p job s)
  unfolding see_answer
  see_answer-Loop t p job s h new =
      After-if (str_eq (read_state sv job).status "failed") _ _ s (λ e. After-pure _ s h)
        λ e.
          After-if (str_eq (read_state sv job).status "completed") _ _ s
            (λ e.
              fetch_clip-Loop t (record p { statuses = (t, read_state sv job) ∷ p.statuses }) s h
                new)
            (λ e. After-pure _ s h)

  poll_task-Loop :
      (t : String) (p : Poll) (s : Session)
      → Loop i p s
      → After Turn (Both OneClip) (poll_task sv i mapping t p s)
  unfolding poll_task
  poll_task-Loop t p s h =
      After-if (one_of t p.existing) _
        (attempt (sv.retrieve_video t) >>= see_answer sv i mapping t p) s (λ e. After-pure _ s h)
        λ e.
          After-bind {P = λ (a : Fields). Loop i p} (attempt (sv.retrieve_video t))
            (see_answer sv i mapping t p) s (After-attempt (sv.retrieve_video t) s (λ a q. h) h.0)
            λ job s' k. see_answer-Loop t p job s' k e

  pub poll_tasks-Loop :
      (ts : List String) (p : Poll) (s : Session)
      → Loop i p s
      → After (Loop i) (Both OneClip) (poll_tasks sv i mapping ts p s)
  unfolding poll_tasks
  poll_tasks-Loop [] p s h = After-pure p s h
  poll_tasks-Loop (t ∷ ts) p s h =
      After-bind {P = Turn} (poll_task sv i mapping t p)
        (λ r. if r.1 then poll_tasks sv i mapping ts r.0 else pure r.0) s (poll_task-Loop t p s h)
        λ r s' k.
          After-if r.1 (poll_tasks sv i mapping ts r.0) (pure r.0) s'
            (λ e. poll_tasks-Loop ts r.0 s' k) (λ e. After-pure r.0 s' k)

module _ (sv : Services) (i : ℕ) where
  conclude-OneClip :
      (run : Run) (expected ready : ℕ) (failed_now : Option String)
      → Preserves (Both OneClip) (conclude sv i run expected ready failed_now)
  conclude-OneClip run expected ready (some message) =
      unfold conclude in search (clip_rules) depth 10
  conclude-OneClip run expected ready none = unfold conclude in search (clip_rules) depth 10

  report-OneClip :
      (run : Run) (expected : ℕ) (artifacts : List Artifact) (pending : List String) (p : Poll)
      → Preserves (Both OneClip) (report sv i run expected artifacts pending p)
  unfolding report
  report-OneClip run expected artifacts pending p = search (clip_rules, conclude-OneClip)

  pub first_poll-Loop :
      (s : Session) → Both OneClip s → Loop i (first_poll sv (get_by_run i s.tables.artifacts)) s
  unfolding stored_clip
  first_poll-Loop s h = (
    h,
    λ t filled.
        sym (any-get_by_run (has_task t) i s.tables.artifacts)
        ∙ sym (one_of-existing_task_ids sv t (get_by_run i s.tables.artifacts) filled),
  )

  poll_artifacts-OneClip :
      (run : Run) (s : Session)
      → Both OneClip s
      → After
          (λ (a : Unit). Both OneClip)
          (Both OneClip)
          (poll_artifacts sv i run (get_by_run i s.tables.artifacts) s)
  unfolding poll_artifacts
  poll_artifacts-OneClip run s h =
      let artifacts = get_by_run i s.tables.artifacts in
      let (expected, mapping) = read_manifest sv artifacts in
      let pending = pending_task_ids sv run mapping in
      After-if (truthy_list pending)
        (poll_tasks sv i mapping pending (first_poll sv artifacts)
          >>= report sv i run expected artifacts pending)
        (end_with (raised "sora.poll could not determine pending task ids for run")) s
        (λ e.
          After-bind {P = Loop i} (poll_tasks sv i mapping pending (first_poll sv artifacts))
            (report sv i run expected artifacts pending) s
            (poll_tasks-Loop sv i mapping pending (first_poll sv artifacts) s (first_poll-Loop s h))
            λ p s' k.
              After-Preserves (report sv i run expected artifacts pending p) s'
                (report-OneClip run expected artifacts pending p) k.0)
        (λ e. After-end_with _ s h)

  poll_run-OneClip : (run : Run) → Preserves (Both OneClip) (poll_run sv i run)
  unfolding poll_run get_artifacts
  poll_run-OneClip run = Preserves-After (poll_run sv i run) λ s h.
      After-bind
        {P = λ (xs : List Artifact) s'. Both OneClip s' × (xs ≡ get_by_run i s'.tables.artifacts)}
        (select_from (λ t. get_by_run i t.artifacts)) (poll_artifacts sv i run) s
        (After-select_from (λ t. get_by_run i t.artifacts) s (h, refl) h)
        λ xs s' (h', same). rw same (poll_artifacts-OneClip run s' h')

pub sora_poll-OneClip :
    (sv : Services) (run_id : Option ℕ) → Preserves (Both OneClip) (sora_poll sv run_id)
unfolding sora_poll
sora_poll-OneClip sv none = Preserves-end_with _
sora_poll-OneClip sv (some i) = search (clip_rules, poll_run-OneClip) depth 10
