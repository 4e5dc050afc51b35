-- ===== src/Background/Handlers/Session.antt =====
-- The handlers of extension/src/background/index.ts that begin and end a session: login, unlock,
-- the changes made while locked, and the lock.
use vaultmarks.Shared.{
  String, Bool, true, false, Option, none, some, List, [], ◌∷◌, ◌==◌, if◌then◌else◌,
}
use vaultmarks.Bookmarks.Offline.{Changes, has_changes}
use vaultmarks.Sync.Http.{ApiError}
use vaultmarks.Sync.Requests.{LoginResult, api_login, api_register}
use vaultmarks.Sync.Action.{
  Failure, pure, throw, gets, or_throw, modify, when, catching, ◌>>=◌, ◌>>◌,
}
use vaultmarks.Auth.Store.{Raw, ProfileInfo}
use vaultmarks.Auth.Session.{
  set_session, lock_session, set_encryption_key, get_active_profile, get_profiles,
}
use vaultmarks.Background.World.{Env, Job, PendingImport}
use vaultmarks.Background.Messages.{
  Response, login_success, login_error, unlock_success, unlock_error, lock_success, resolve_success,
  resolve_error,
}
use vaultmarks.Background.Steps.{
  remotely, active_profile_id, set_auth, init_doc, reset_version_cursor, load_id_map, load_snapshot,
  last_seq_id, export_and_enqueue_local_changes, merge_local_changes, offline_changes,
  reconcile_bookmarks, detach_bookmark_listeners, attach_bookmark_listeners,
}
use vaultmarks.Background.Syncing.{sync_from, start_sync, stop_realtime_sync}
use vaultmarks.Background.SignOut.{set_icon_locked}
use vaultmarks.Background.Initialize.{initialize_docs}

-- The account that a login or a registration gives.
pub record Account : Type 0 where
  pub token : String
  pub profiles : List ProfileInfo
  pub protected_symmetric_key : String
  pub is_new : Bool

abbrev known : LoginResult → Account
known r = record {
  token = r.token;
  profiles = r.profiles;
  protected_symmetric_key = r.protected_symmetric_key;
  is_new = false;
}

-- `profiles[0].id`
abbrev pub first_profile : List ProfileInfo → Option String
first_profile [] = none
first_profile (p ∷ ps) = some p.id

module _ {E : Env} where
  abbrev pub import_key : Raw → Job E E.Key
  import_key bytes = or_throw (E.import_key bytes) (Failure.message "Invalid key data")

  -- `setPendingImport`
  unfoldable pub set_pending_import : Option PendingImport → Job E Unit
  set_pending_import p = modify (λ w. record w { pending_import = p; stored_import = p })

  abbrev pub registration_failed : Failure → Job E (String × String)
  registration_failed (Failure.message text) =
      if text == "email already registered"
      then throw (Failure.message "Incorrect email or password.")
      else throw (Failure.message text)
  registration_failed (Failure.api e) = throw (Failure.api e)
  registration_failed Failure.wrong_key = throw Failure.wrong_key
  registration_failed (Failure.unexpected t n) = throw (Failure.unexpected t n)

  -- The registration of an address that the server does not know yet.
  unfoldable pub register : String → String → E.Key → Job E Account
  register email auth_key wrapping_key = do
    bytes ← gets (λ w. E.random_key w.remote)
    key ← import_key bytes
    (token, id) ← catching registration_failed (
        remotely (
          api_register E.fetch email auth_key "Default" (E.encrypt key (E.encode_text "{}"))
            (E.encrypt wrapping_key bytes)))
    pure (record {
      token = token;
      profiles = record { id = id; name = "Default" } ∷ [];
      protected_symmetric_key = E.encrypt wrapping_key bytes;
      is_new = true;
    })

  -- Only wrong credentials lead to a registration.
  unfoldable pub sign_in_failed : String → String → E.Key → Failure → Job E Account
  unfolding register
  sign_in_failed email auth_key wrapping_key (Failure.api ApiError.invalid_credentials) =
      register email auth_key wrapping_key
  sign_in_failed email auth_key wrapping_key e = throw e

  unfoldable pub sign_in : String → String → E.Key → Job E Account
  unfolding sign_in_failed
  sign_in email auth_key wrapping_key =
      catching (sign_in_failed email auth_key wrapping_key)
        (do r ← remotely (api_login E.fetch email auth_key); pure (known r))

  unfoldable pub handle_login : String → String → Raw → Job E Response
  unfolding sign_in
  handle_login email auth_key wrapping_key_bytes =
      catching (λ e. pure (login_error e))
        (do
          wrapping_key ← import_key wrapping_key_bytes
          account ← sign_in email auth_key wrapping_key
          if account.protected_symmetric_key == ""
              then throw (Failure.message "Server did not return a protected_symmetric_key")
              else (do
                raw ←
                    or_throw (E.decrypt wrapping_key account.protected_symmetric_key)
                      Failure.wrong_key
                key ← import_key raw
                profile ←
                    or_throw (first_profile account.profiles)
                      (Failure.message "Cannot read properties of undefined")
                modify (λ w. record w {
                  auth =
                      set_session
                        (record {
                          jwt = account.token;
                          email = email;
                          encryption_key = key;
                          encryption_key_raw = raw;
                          protected_symmetric_key = account.protected_symmetric_key;
                          user_id = "";
                          profiles = account.profiles;
                          active_profile_id = profile;
                        })
                        w.auth;
                })
                started ← initialize_docs profile false true
                elim started.pending_import [
                  | some diff ↦ do
                    set_pending_import (some (record { profile_id = profile; diff = diff }))
                    pure (login_success account.profiles (some diff) none none)
                  | none ↦ do
                    set_icon_locked false
                    start_sync
                    pure (
                        login_success account.profiles none started.bootstrapped
                          (some account.is_new))
                ]))

  abbrev pub unlocked : Option Changes → Job E Response
  unlocked changes =
      gets (λ w. unlock_success (get_active_profile w.auth) (get_profiles w.auth) changes)

  abbrev pub set_pending_unlock : Option (Changes × String) → Job E Unit
  set_pending_unlock none = modify (λ w. record w { pending_changes = none; pending_unlock = none })
  set_pending_unlock (some (changes, profile)) =
      modify (λ w. record w { pending_changes = some changes; pending_unlock = some profile })

  -- The changes made while locked, where there is a local snapshot.
  unfoldable pub changes_while_locked : Option Raw → Job E (Option Changes)
  changes_while_locked none = pure none
  changes_while_locked (some bytes) = do
    init_doc (some bytes)
    reset_version_cursor
    changes ← offline_changes
    pure (if has_changes changes then some changes else none)

  unfoldable pub handle_unlock : Raw → Job E Response
  unfolding changes_while_locked
  handle_unlock bytes =
      catching (λ e. pure (unlock_error e))
        (do
          key ← import_key bytes
          opened ← gets (λ w. set_encryption_key key bytes w.auth)
          auth ← or_throw opened (Failure.message "No session to unlock")
          set_auth auth
          profile ← active_profile_id
          load_id_map profile
          stored ← load_snapshot profile
          changes ← changes_while_locked stored
          elim changes [
            | some c ↦ do
              set_pending_unlock (some (c, profile))
              set_icon_locked true
              unlocked (some c)
            | none ↦ do
              set_pending_unlock none
              initialize_docs profile true false
              set_icon_locked false
              start_sync
              unlocked none
          ])

  -- `completeUnlockInit`
  unfoldable pub complete_unlock : String → Bool → Job E Unit
  complete_unlock profile apply_local_changes = do
    when apply_local_changes (merge_local_changes >> export_and_enqueue_local_changes)
    since ← last_seq_id profile
    sync_from profile since false false
    reconcile_bookmarks
    attach_bookmark_listeners

  abbrev pub lock_again : Failure → Job E Unit
  lock_again Failure.wrong_key = do
    modify (λ w. record w { auth = lock_session w.auth })
    set_icon_locked true
  lock_again _ = pure tt

  unfoldable pub handle_resolve_locked_changes : Bool → Job E Response
  unfolding complete_unlock
  handle_resolve_locked_changes apply = do
    pending ← gets (λ w. w.pending_unlock)
    elim pending [
      | none ↦ pure (resolve_error (Failure.message "No pending unlock to resolve."))
      | some profile ↦
          if profile == ""
          then pure (resolve_error (Failure.message "No pending unlock to resolve."))
          else (do
            set_pending_unlock none
            catching (λ e. lock_again e >> pure (resolve_error e))
                (do
                  complete_unlock profile apply
                  set_icon_locked false
                  start_sync
                  pure resolve_success))
    ]

  unfoldable pub handle_lock : Job E Response
  handle_lock = do
    stop_realtime_sync
    detach_bookmark_listeners
    modify (λ w. record w { auth = lock_session w.auth })
    set_icon_locked true
    pure lock_success
