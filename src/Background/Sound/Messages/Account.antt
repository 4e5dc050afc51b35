-- ===== src/Background/Sound/Messages/Account.antt =====
-- The handlers of the account keep the worker sound.
use vaultmarks.Shared.{String, Bool, true, false, none, some, ◌≡◌, refl, arith}
use vaultmarks.Sync.Action.{Failure, pure, throw}
use vaultmarks.Auth.Store.{Auth}
use vaultmarks.Background.World.{Env, World, Job}
use vaultmarks.Background.Keeping.{
  Keeps, bind-Keeps, pure-Keeps, throw-Keeps, gets-Keeps, catching-Keeps, modify-Keeps, when-Keeps,
  if-Keeps, modify-Moves, attempt-Moves, pass_on-Keeps, Keeps-Moves, Moves-Keeps,
}
use vaultmarks.Background.Sound.{
  Mode, idle, IsSound, read-Keeps, set_database-Keeps, remotely-Keeps, update-Keeps,
  persist_snapshot-Keeps, last_seq_id-Keeps, export-Keeps, merge_local_changes-Keeps,
  offline_changes-Keeps,
}
use vaultmarks.Auth.Session.{is_logged_in, update_jwt, update_protected_symmetric_key}
use vaultmarks.Background.Messages.{Response, sync_error}
use vaultmarks.Background.Syncing.{is_expired, stop_realtime_sync}
use vaultmarks.Background.Handlers.Account.{
  handle_logout, change_password, handle_change_password, wipe, handle_delete_account,
  catch_local_changes, expire, sync_locked, sync_now, handle_sync,
}
use vaultmarks.Background.Sound.Syncs.{
  sync_from-Keeps, start_sync-Keeps, log_out-Keeps, signed_out-Keeps, push_pending-Keeps,
}
use vaultmarks.Background.Sound.Messages.Session.{updated_in}

abbrev in_pause : Mode → Mode
in_pause m = record m { paused = true }

module _ {K : Type 0} where
  jwt_updated_in : (t : String) (a b : Auth K) → update_jwt t a ≡ some b → is_logged_in b ≡ true
  unfolding update_jwt is_logged_in
  jwt_updated_in t a b h = ground (arith, h)

  psk_updated_in :
      (t : String) (a b : Auth K)
      → update_protected_symmetric_key t a ≡ some b
      → is_logged_in b ≡ true
  unfolding update_protected_symmetric_key is_logged_in
  psk_updated_in t a b h = ground (arith, h)

module _ {E : Env} {m : Mode} where
  pub handle_logout-Keeps : (c : Bool) → Keeps (IsSound m) (handle_logout {E = E} c)
  unfolding handle_logout
  handle_logout-Keeps c = bind-Keeps (log_out-Keeps c) (λ a. pure-Keeps _)

  change-Keeps : (o n p : String) → Keeps (IsSound m) (change_password {E = E} o n p)
  unfolding change_password
  change-Keeps o n p = bind-Keeps (read-Keeps _ _) (λ old. bind-Keeps (remotely-Keeps _) (λ t.
      update-Keeps (update_jwt t) _ _ (jwt_updated_in t)
        (update-Keeps (update_protected_symmetric_key p) _ _ (psk_updated_in p) (pure-Keeps _))))

  expire-Keeps :
      (f : Failure) (other : Failure → Job E Response)
      → ((e : Failure) → Keeps (IsSound m) (other e))
      → Keeps (IsSound m) (expire f other)
  expire-Keeps f other h = if-Keeps (is_expired f) (handle_logout-Keeps false) (h f)

  wipe-Keeps : Keeps (IsSound m) (wipe {E = E})
  unfolding wipe
  wipe-Keeps =
      signed_out-Keeps _
        (bind-Keeps (set_database-Keeps _ (λ w s i. i) (λ w i. i)) (λ a. modify-Keeps _ (λ w i. i)))

  pub handle_delete_account-Keeps :
      (k : String) → Keeps (IsSound m) (handle_delete_account {E = E} k)
  unfolding handle_delete_account
  handle_delete_account-Keeps k =
      catching-Keeps (λ e. pure-Keeps _)
        (bind-Keeps (read-Keeps _ _)
          (λ t. bind-Keeps (remotely-Keeps _) (λ a. bind-Keeps wipe-Keeps (λ b. pure-Keeps _))))

  pub catch_local-Keeps : (p : String) → Keeps (IsSound m) (catch_local_changes {E = E} p)
  unfolding catch_local_changes
  catch_local-Keeps p = bind-Keeps (gets-Keeps _) (λ e. when-Keeps e (
      bind-Keeps offline_changes-Keeps (λ c. when-Keeps _ (
        bind-Keeps (bind-Keeps merge_local_changes-Keeps (λ a. export-Keeps))
          (λ b. persist_snapshot-Keeps p)))))

  locked-Keeps : Keeps (IsSound m) (sync_locked {E = E})
  unfolding sync_locked
  locked-Keeps = bind-Keeps (read-Keeps _ _) (λ t.
      bind-Keeps
        (catching-Keeps (λ e. expire-Keeps e throw (λ f. throw-Keeps f))
          (bind-Keeps (remotely-Keeps _) (λ a. pure-Keeps _)))
        (λ r. pure-Keeps _))

  module _ (q : m.syncing ≡ false) where
    now-Keeps : Keeps (IsSound m) (sync_now {E = E})
    unfolding sync_now
    now-Keeps = bind-Keeps (read-Keeps _ _) (λ p. bind-Keeps (catch_local-Keeps p) (λ a.
        bind-Keeps push_pending-Keeps (λ b. bind-Keeps (last_seq_id-Keeps p) (λ n.
          bind-Keeps (sync_from-Keeps q p n false false) (λ c. bind-Keeps (read-Keeps _ _) (λ t.
            bind-Keeps (remotely-Keeps _) (λ ps.
              bind-Keeps (modify-Keeps _ (λ w i. (i.0, λ h. i.1 (updated_in _ w.auth h))))
                (λ d. gets-Keeps _))))))))

    pub handle_sync-Keeps : Keeps (IsSound m) (handle_sync {E = E})
    unfolding handle_sync
    handle_sync-Keeps =
        catching-Keeps
          (λ e. expire-Keeps e (λ f. pure (sync_error f)) (λ f. pure-Keeps (sync_error f)))
          (bind-Keeps (gets-Keeps _) (λ l. if-Keeps l locked-Keeps now-Keeps))

module _ {E : Env} where
  pub handle_change-Keeps :
      (o n p : String) → Keeps (IsSound idle) (handle_change_password {E = E} o n p)
  unfolding handle_change_password stop_realtime_sync
  handle_change-Keeps o n p = Moves-Keeps (
      modify-Moves _ _ pause_on (
        modify-Moves _ _ stop_on (
          attempt-Moves
            (catching-Keeps
              (λ e.
                bind-Keeps (when-Keeps (is_expired e) (log_out-Keeps false)) (λ a. pure-Keeps _))
              (change-Keeps o n p))
            (λ r. modify-Moves _ _ pause_off (
              Keeps-Moves (
                bind-Keeps (gets-Keeps _)
                  (λ c. bind-Keeps (when-Keeps c start_sync-Keeps) (λ a. pass_on-Keeps r))))))))
    where
      pause_on :
          (w : World E)
          → IsSound idle w
          → IsSound
              (in_pause idle)
              (record w { flags = record w.flags { sync_paused = true }; push_paused = true })
      pause_on w i = ((i.0.0, i.0.1, refl, refl, i.0.4), i.1)

      pause_off :
          (w : World E)
          → IsSound (in_pause idle) w
          → IsSound idle
              (record w { flags = record w.flags { sync_paused = false }; push_paused = false })
      pause_off w i = ((i.0.0, i.0.1, refl, refl, i.0.4), i.1)

      stop_on :
          (w : World E)
          → IsSound (in_pause idle) w
          → IsSound
              (in_pause idle)
              (record w { stream = none; poll_alarm = false; reconnect_alarm = false })
      stop_on w i = (i.0, λ h. (refl, refl, (i.1 h).2))
