-- ===== src/Background/Syncing.antt =====
-- The sync helpers of extension/src/background/index.ts.
use vaultmarks.Shared.{
  ℕ, String, Bool, true, false, not, Option, none, some, List, [], ◌∷◌, ◌++◌, ◌==◌, ◌&&◌, ◌+◌,
  or_else, if◌then◌else◌, ltb, is_some, length,
}
use vaultmarks.Shared.Dict.{get, put}
use vaultmarks.Sync.Http.{ApiError, is_ok, is_auth_expired}
use vaultmarks.Sync.Queue.{QueuedDelta}
use vaultmarks.Sync.Server.{PullReply, refused, page}
use vaultmarks.Sync.Pull.{ok, err, RawDelta, last_seq, pull_pages}
use vaultmarks.Sync.Push.{push_pending_inner}
use vaultmarks.Sync.Requests.{Request, Answer, page_body, api_put_server_snapshot}
use vaultmarks.Sync.Action.{
  Failure, Result, done, failed, pure, throw, gets, modify, when, finally, ◌>>=◌, ◌>>◌,
}
use vaultmarks.Auth.Store.{Raw}
use vaultmarks.Auth.Session.{is_logged_in, is_locked, get_active_profile_id}
use vaultmarks.Background.Exclusive.{overlap, enter, leave}
use vaultmarks.Background.World.{Env, World, Job, Task}
use vaultmarks.Background.Steps.{
  remotely, jwt, active_profile_id, encryption_key, start_task, set_database, persist_snapshot,
  set_last_seq_id, reconcile_bookmarks,
}

-- `err instanceof AuthExpiredError`
abbrev pub is_expired : Failure → Bool
is_expired (Failure.api e) = is_auth_expired e
is_expired Failure.wrong_key = false
is_expired (Failure.message t) = false
is_expired (Failure.unexpected t n) = false

-- An answer to one page: no answer, or one without the page, is a failed request.
unfoldable pub page_reply : Option Answer → PullReply
page_reply none = refused 0
page_reply (some a) = elim a.body [
  | page_body entries has_more ↦ if is_ok a.status then page entries has_more else refused a.status
  | _ ↦ if is_ok a.status then refused 0 else refused a.status
]

unfoldable pub import_deltas : {D : Type 0} → (Raw → D → D) → List (RawDelta Raw) → D → D
import_deltas import_update [] d = d
import_deltas import_update ((seq, payload) ∷ ds) d =
    import_deltas import_update ds (import_update payload d)

-- The server's answer to one delta, as `pushPending` sends it.
unfoldable pub send :
    {R : Type 0} → (Request → R → Option Answer × R) → String → R → QueuedDelta → Option ℕ × R
send fetch token r d =
    let (a, r') = fetch (Request.push token d.profile_id d.encrypted_delta) r in
    (elim a [ none ↦ none | some x ↦ some x.status ], r')

-- What a drain leaves in the queue, or the error that it throws.
abbrev pub outcome : List QueuedDelta → Option ApiError → Result (List QueuedDelta)
outcome left none = done left
outcome left (some e) = failed (Failure.api e)

module _ {E : Env} where
  -- The stream's flag is the connection's own: the variable `sse` is null afterwards.
  unfoldable pub stop_realtime_sync : Job E Unit
  stop_realtime_sync =
      modify (λ w. record w { stream = none; poll_alarm = false; reconnect_alarm = false })

  -- `pullSince`: the pages are read one after another, and reading leaves the server as it is.
  unfoldable pub pull_since : ℕ → String → Job E (List (RawDelta Raw))
  unfolding page_reply
  pull_since since_seq profile = do
    token ← jwt
    key ← encryption_key
    pulled ← gets (λ w.
        pull_pages (E.decrypt key)
          (λ cursor. page_reply (E.fetch (Request.pull token profile cursor) w.remote).0) E.pages
          since_seq [])
    elim pulled [
      | none ↦ throw (Failure.api ApiError.request_failed)
      | some (err ApiError.bad_payload) ↦ throw Failure.wrong_key
      | some (err e) ↦ throw (Failure.api e)
      | some (ok deltas) ↦ pure deltas
    ]

  unfoldable pub set_last_synced : Job E Unit
  set_last_synced = modify (λ w. record w { last_synced = some (E.now w.remote) })

  -- `_syncFromInner` once the deltas are there; the refresh of the server's snapshot is not waited
  -- for.
  unfoldable pub apply_deltas : String → Bool → List (RawDelta Raw) → Job E Unit
  unfolding import_deltas set_last_synced
  apply_deltas profile skip_reconcile [] = set_last_synced
  apply_deltas profile skip_reconcile (d ∷ ds) = do
    modify (λ w. record w {
      bridge = record w.bridge { doc = import_deltas E.import_update (d ∷ ds) w.bridge.doc };
    })
    persist_snapshot profile
    set_last_seq_id profile (last_seq 0 (d ∷ ds))
    when (not skip_reconcile) reconcile_bookmarks
    set_last_synced
    start_task (Task.refresh_task profile (last_seq 0 (d ∷ ds)))

  unfoldable pub run_sync : String → ℕ → Bool → Job E Unit
  unfolding pull_since apply_deltas
  run_sync profile since_seq skip_reconcile = do
    deltas ← pull_since since_seq profile
    apply_deltas profile skip_reconcile deltas

  -- The guards of `runCatchUpSync`.
  unfoldable pub can_catch_up : World E → Bool
  can_catch_up w =
      is_logged_in w.auth
      && (not (is_locked w.auth)
          && (not w.flags.sync_paused
              && (not w.flags.switch_in_progress
                  && (not (is_some w.pending_import) && not (is_some w.pending_changes)))))

  -- The `finally` of `syncFrom`.
  unfoldable pub after_sync : World E → World E
  unfolding can_catch_up
  after_sync w =
      let (again, f) = leave w.flags in
      record w {
        flags = f;
        tasks =
            if again && can_catch_up (record w { flags = f })
            then w.tasks ++ Task.sync_task (or_else (get_active_profile_id w.auth) "") ∷ []
            else w.tasks;
      }

  -- What comes while the sync runs is in the flags when it ends, with an error or without.
  unfoldable pub end_sync : World E → World E
  unfolding after_sync overlap
  end_sync w = after_sync (record w { flags = overlap (E.overlaps w.remote) w.flags })

  unfoldable pub sync_from : String → ℕ → Bool → Bool → Job E Unit
  unfolding run_sync end_sync
  sync_from profile since_seq skip_reconcile exclusive w =
      let (runs, f) = enter exclusive w.flags in
      let synced = finally end_sync (run_sync profile since_seq skip_reconcile) in
      (if runs then synced else pure tt) (record w { flags = f })

  -- `getActiveProfileId` throws where nobody is logged in.
  unfoldable pub connect_event_stream : Job E Unit
  connect_event_stream = do
    paused ← gets (λ w. w.flags.sync_paused)
    if paused then pure tt else (do
      profile ← active_profile_id
      token ← jwt
      if profile == ""
          then pure tt
          else modify (λ w. record w {
            reconnect_alarm = false;
            stream = some (record { profile_id = profile; token = token; closed = false });
          }))

  -- The alarm is only made where there is none.
  unfoldable pub start_sync : Job E Unit
  unfolding connect_event_stream
  start_sync = do
    paused ← gets (λ w. w.flags.sync_paused)
    if paused then pure tt else (do
      profile ← active_profile_id
      if profile == "" then pure tt else (do
        connect_event_stream
        start_task Task.push_task
        modify (λ w. record w { poll_alarm = true })))

  -- Nothing is written where no delta is settled.
  unfoldable pub push_batch : String → String → Job E Unit
  unfolding send
  push_batch token profile = do
    queue ← gets (λ w. w.database.queue)
    left ← remotely (λ s.
        let ((q, e), s') = push_pending_inner (send E.fetch token) profile s queue in
        (outcome q e, s'))
    when (ltb (length left) (length queue)) (set_database (λ d. record d { queue = left }))

  -- The session is only read where the queue has something.
  unfoldable pub push_queue : List QueuedDelta → Job E Unit
  unfolding push_batch
  push_queue [] = pure tt
  push_queue (d ∷ ds) = do token ← jwt; profile ← active_profile_id; push_batch token profile

  -- `pushPending`, whose calls run one after another.
  unfoldable pub push_pending : Job E Unit
  unfolding push_queue
  push_pending = do
    paused ← gets (λ w. w.push_paused)
    queue ← gets (λ w. w.database.queue)
    if paused then pure tt else push_queue queue

  -- `maybeUploadServerSnapshot`
  unfoldable pub refresh_server_snapshot : String → ℕ → Job E Unit
  refresh_server_snapshot profile seq = do
    last_upload ← gets (λ w. or_else (get w.database.last_uploads profile) 0)
    if ltb seq (last_upload + 50) then pure tt else (do
      key ← encryption_key
      blob ← gets (λ w. E.encrypt key (E.export_snapshot w.bridge.doc))
      token ← jwt
      remotely (api_put_server_snapshot E.fetch token profile seq blob)
      set_database (λ d. record d { last_uploads = put d.last_uploads profile seq }))
