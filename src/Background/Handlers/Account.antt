-- ===== src/Background/Handlers/Account.antt =====
-- The handlers of extension/src/background/index.ts that act on the account as a whole: the change
-- of the password, the deletion of the account, and the manual sync.
use vaultmarks.Shared.{String, Bool, true, false, not, [], ◌&&◌, if◌then◌else◌}
use vaultmarks.Bookmarks.Offline.{has_changes}
use vaultmarks.Sync.Requests.{api_change_password, api_delete_account, api_get_profiles}
use vaultmarks.Sync.Action.{
  Failure, pure, throw, gets, or_throw, modify, when, catching, attempt, pass_on, ◌>>=◌, ◌>>◌,
}
use vaultmarks.Auth.Session.{
  is_logged_in, is_locked, update_jwt, update_protected_symmetric_key, update_profiles,
}
use vaultmarks.Background.World.{Env, Database, Job, Icon}
use vaultmarks.Background.Messages.{
  Response, change_password_success, change_password_error, delete_account_success,
  delete_account_error, sync_success, sync_error, logout_success,
}
use vaultmarks.Background.Steps.{
  remotely, jwt, active_profile_id, not_logged_in, set_auth, set_database, last_seq_id,
  persist_snapshot, export_and_enqueue_local_changes, merge_local_changes, offline_changes,
  is_established, detach_bookmark_listeners,
}
use vaultmarks.Background.Syncing.{
  is_expired, sync_from, start_sync, stop_realtime_sync, push_pending,
}
use vaultmarks.Background.SignOut.{log_out, sign_out, set_icon}

-- `clearAllLocalData`
unfoldable pub clear_all_local_data : Database
clear_all_local_data = record {
  snapshots = [];
  id_maps = [];
  last_seqs = [];
  last_uploads = [];
  queue = [];
}

module _ {E : Env} where
  -- `handleLogout(clearBookmarks)`
  unfoldable pub handle_logout : Bool → Job E Response
  handle_logout clear_bookmarks = log_out clear_bookmarks >> pure logout_success

  -- `_syncPaused` and the pause of the pushes, which are set and reset together.
  abbrev pub set_paused : Bool → Job E Unit
  set_paused b =
      modify (λ w. record w { flags = record w.flags { sync_paused = b }; push_paused = b })

  unfoldable pub change_password : String → String → String → Job E Response
  change_password old_key new_key psk = do
    old ← jwt
    token ← remotely (api_change_password E.fetch old_key new_key psk old)
    updated ← gets (λ w. update_jwt token w.auth)
    auth ← or_throw updated not_logged_in
    set_auth auth
    wrapped ← gets (λ w. update_protected_symmetric_key psk w.auth)
    auth' ← or_throw wrapped not_logged_in
    set_auth auth'
    pure change_password_success

  -- No sync and no switch is running when the request is made: `waitForSyncIdle` waits for it.
  unfoldable pub handle_change_password : String → String → String → Job E Response
  unfolding change_password
  handle_change_password old_key new_key psk = do
    set_paused true
    stop_realtime_sync
    r ← attempt (
        catching (λ e. when (is_expired e) (log_out false) >> pure (change_password_error e))
          (change_password old_key new_key psk))
    set_paused false
    resumes ← gets (λ w. is_logged_in w.auth && not (is_locked w.auth))
    when resumes start_sync
    pass_on r

  abbrev wipe_database : Job E Unit
  wipe_database = do set_database (λ d. clear_all_local_data); set_icon Icon.signedout_icon

  -- The session is torn down as by a logout, and all local data go.
  unfoldable pub wipe : Job E Unit
  unfolding clear_all_local_data
  wipe = do stop_realtime_sync; detach_bookmark_listeners; sign_out; wipe_database

  unfoldable pub handle_delete_account : String → Job E Response
  unfolding wipe
  handle_delete_account auth_key =
      catching (λ e. pure (delete_account_error e))
        (do
          token ← jwt
          remotely (api_delete_account E.fetch token auth_key)
          wipe
          pure delete_account_success)

  -- The changes that no listener saw, where there are any.
  unfoldable pub catch_local_changes : String → Job E Unit
  catch_local_changes profile = do
    established ← is_established
    when established (do
      changes ← offline_changes
      when (has_changes changes)
          (merge_local_changes >> export_and_enqueue_local_changes >> persist_snapshot profile))

  abbrev pub expire : Failure → (Failure → Job E Response) → Job E Response
  expire e other = if is_expired e then handle_logout false else other e

  -- A locked session is only tested for the account being there.
  unfoldable pub sync_locked : Job E Response
  unfolding handle_logout
  sync_locked = do
    token ← jwt
    r ←
        catching (λ e. expire e throw)
          (remotely (api_get_profiles E.fetch token)
            >> pure (sync_error (Failure.message "Session is locked — please unlock to sync.")))
    pure r

  unfoldable pub sync_now : Job E Response
  unfolding catch_local_changes
  sync_now = do
    profile ← active_profile_id
    catch_local_changes profile
    push_pending
    since ← last_seq_id profile
    sync_from profile since false false
    token ← jwt
    profiles ← remotely (api_get_profiles E.fetch token)
    modify (λ w. record w { auth = update_profiles profiles w.auth })
    gets (λ w. sync_success w.last_synced profiles)

  unfoldable pub handle_sync : Job E Response
  unfolding sync_locked sync_now
  handle_sync =
      catching (λ e. expire e (λ e'. pure (sync_error e')))
        (do locked ← gets (λ w. is_locked w.auth); if locked then sync_locked else sync_now)
