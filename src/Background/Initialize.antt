-- ===== src/Background/Initialize.antt =====
-- `initializeDocs` of extension/src/background/index.ts.
use vaultmarks.Shared.{
  ℕ, String, Bool, false, not, Option, none, some, ◌&&◌, if◌then◌else◌, ltb, nat_beq, length,
  is_some,
}
use vaultmarks.Bookmarks.Import.{ImportDiff}
use vaultmarks.Sync.Requests.{ServerSnapshot, api_get_server_snapshot}
use vaultmarks.Sync.Action.{Failure, pure, gets, or_throw, when, catching, ◌>>=◌, ◌>>◌}
use vaultmarks.Auth.Store.{Raw}
use vaultmarks.Auth.Session.{get_profiles}
use vaultmarks.Background.World.{Env, Job, Task}
use vaultmarks.Background.Steps.{
  remotely, jwt, encryption_key, start_task, init_doc, reset_version_cursor, load_id_map,
  load_snapshot, persist_snapshot, last_seq_id, set_last_seq_id, enqueue_delta,
  export_and_enqueue_local_changes, merge_local_changes, import_diff, bootstrap,
  reconcile_bookmarks, attach_bookmark_listeners, is_established,
}
use vaultmarks.Background.Syncing.{sync_from}

-- What `initializeDocs` resolves to, with fields that may be missing.
pub record Initialized : Type 0 where
  pub pending_import : Option ImportDiff
  pub bootstrapped : Option Bool

abbrev pub ready : Initialized
ready = record { pending_import = none; bootstrapped = none }

abbrev pub conflict : ImportDiff → Initialized
conflict d = record { pending_import = some d; bootstrapped = none }

module _ {E : Env} where
  -- The last steps of every path that does not return early.
  unfoldable pub finish : Job E Initialized
  finish = do reconcile_bookmarks; attach_bookmark_listeners; pure ready

  -- The diff with the server's bookmarks, where the browser has some that the account has not.
  unfoldable pub find_conflict : Job E (Option ImportDiff)
  find_conflict = do diff ← import_diff; pure (if ltb 0 diff.local_only then some diff else none)

  -- A local snapshot is there.
  unfoldable pub initialize_from_local : String → Raw → Bool → Bool → Job E Initialized
  unfolding finish find_conflict
  initialize_from_local profile bytes merge_offline check_import = do
    init_doc (some bytes)
    reset_version_cursor
    established ← is_established
    when (merge_offline && established) (merge_local_changes >> export_and_enqueue_local_changes)
    since ← last_seq_id profile
    sync_from profile since check_import false
    found ← if check_import then find_conflict else pure none
    elim found [ none ↦ finish | some diff ↦ pure (conflict diff) ]

  -- The server's snapshot, or `null` where it cannot be fetched.
  unfoldable pub fetch_server_snapshot : String → Job E (Option ServerSnapshot)
  fetch_server_snapshot profile =
      catching (λ e. pure none)
        (do token ← jwt; remotely (api_get_server_snapshot E.fetch token profile))

  -- The server's snapshot and what follows it, or all deltas.
  unfoldable pub load_from_server : String → Option ServerSnapshot → Bool → Job E Unit
  load_from_server profile none check_import = do
    init_doc none
    sync_from profile 0 check_import false
  load_from_server profile (some s) check_import = do
    key ← encryption_key
    bytes ← or_throw (E.decrypt key s.encrypted_payload) Failure.wrong_key
    init_doc (some bytes)
    reset_version_cursor
    set_last_seq_id profile s.snapshot_seq
    sync_from profile s.snapshot_seq check_import false

  -- A new account with one profile is seeded from the browser.
  unfoldable pub seed_profile : String → Job E Initialized
  seed_profile profile = do
    count ← bootstrap profile
    bytes ← gets (λ w. E.export_snapshot w.bridge.doc)
    enqueue_delta bytes
    persist_snapshot profile
    reconcile_bookmarks
    attach_bookmark_listeners
    pure (record { pending_import = none; bootstrapped = some (ltb 0 count) })

  -- The snapshot that a full replay made is sent to the server, which is not waited for.
  unfoldable pub offer_snapshot : String → Option ServerSnapshot → ℕ → Job E Unit
  offer_snapshot profile snapshot seq =
      if not (is_some snapshot) && ltb 0 seq
      then (do
        key ← encryption_key
        blob ← gets (λ w. E.encrypt key (E.export_snapshot w.bridge.doc))
        start_task (Task.upload_task profile seq blob))
      else pure tt

  abbrev persist_and_finish : String → Option ServerSnapshot → ℕ → Job E Initialized
  persist_and_finish profile snapshot seq = do
    persist_snapshot profile
    offer_snapshot profile snapshot seq
    finish

  -- There is no local snapshot.
  unfoldable pub initialize_from_server : String → Bool → Job E Initialized
  unfolding find_conflict fetch_server_snapshot load_from_server seed_profile offer_snapshot
  initialize_from_server profile check_import = do
    key ← encryption_key
    snapshot ← fetch_server_snapshot profile
    load_from_server profile snapshot check_import
    seq ← last_seq_id profile
    profiles ← gets (λ w. get_profiles w.auth)
    if nat_beq seq 0
        then (if nat_beq (length profiles) 1
            then seed_profile profile
            else persist_and_finish profile snapshot seq)
        else (do
          found ← if check_import then find_conflict else pure none
          elim found [
            | none ↦ persist_and_finish profile snapshot seq
            | some diff ↦ persist_snapshot profile >> pure (conflict diff)
          ])

  unfoldable pub initialize_docs : String → Bool → Bool → Job E Initialized
  unfolding initialize_from_local initialize_from_server
  initialize_docs profile merge_offline check_import = do
    load_id_map profile
    stored ← load_snapshot profile
    elim stored [
      | some bytes ↦ initialize_from_local profile bytes merge_offline check_import
      | none ↦ initialize_from_server profile check_import
    ]
