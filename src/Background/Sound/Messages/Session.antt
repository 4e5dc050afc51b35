-- ===== src/Background/Sound/Messages/Session.antt =====
-- The handlers of a session's begin and end keep the worker sound.
use vaultmarks.Shared.{String, Bool, true, false, Option, none, some, List, ◌==◌, ◌≡◌, arith}
use vaultmarks.Sync.Action.{Failure}
use vaultmarks.Auth.Store.{Raw, Auth, ProfileInfo}
use vaultmarks.Background.World.{Env, World}
use vaultmarks.Background.Keeping.{
  Keeps, bind-Keeps, pure-Keeps, throw-Keeps, gets-Keeps, or_throw-Keeps, catching-Keeps,
  modify-Keeps, when-Keeps, if-Keeps, option-Keeps,
}
use vaultmarks.Background.Sound.{
  Mode, IsSound, read-Keeps, remotely-Keeps, update-Keeps, init_doc-Keeps, reset-Keeps,
  load_id_map-Keeps, load_snapshot-Keeps, last_seq_id-Keeps, export-Keeps,
  merge_local_changes-Keeps, offline_changes-Keeps, reconcile_attach_end-Keeps, detach-Keeps,
}
use vaultmarks.Sync.Http.{ApiError}
use vaultmarks.Auth.Session.{
  is_logged_in, set_session, lock_session, set_encryption_key, switch_profile, add_profile,
  remove_profile, update_profiles,
}
use vaultmarks.Background.Handlers.Session.{
  registration_failed, sign_in_failed, register, sign_in, handle_login, changes_while_locked,
  handle_unlock, complete_unlock, handle_resolve_locked_changes, handle_lock, set_pending_import,
  lock_again,
}
use vaultmarks.Background.Sound.Syncs.{sync_from-Keeps, start_sync-Keeps, stop-Keeps}
use vaultmarks.Background.Sound.Starts.{initialize_docs-Keeps}

module _ {K : Type 0} where
  lock_in : (a : Auth K) → is_logged_in (lock_session a) ≡ false → is_logged_in a ≡ false
  unfolding lock_session is_logged_in
  lock_in a h = ground (arith, h)

  key_set_in :
      (k : K) (raw : Raw) (a b : Auth K)
      → set_encryption_key k raw a ≡ some b
      → is_logged_in b ≡ true
  unfolding set_encryption_key is_logged_in
  key_set_in k raw a b h = ground (arith, h)

  pub switched_in :
      (p : String) (a b : Auth K) → switch_profile p a ≡ some b → is_logged_in b ≡ true
  unfolding switch_profile is_logged_in
  switched_in p a b h = ground (arith, h)

  pub added_in : (p : ProfileInfo) (a b : Auth K) → add_profile p a ≡ some b → is_logged_in b ≡ true
  unfolding add_profile is_logged_in
  added_in p a b h = ground (arith, h)

  pub removed_in :
      (p : String) (a : Auth K) → is_logged_in (remove_profile p a) ≡ false → is_logged_in a ≡ false
  unfolding remove_profile is_logged_in
  removed_in p a h = ground (arith, h)

  pub updated_in :
      (ps : List ProfileInfo) (a : Auth K)
      → is_logged_in (update_profiles ps a) ≡ false
      → is_logged_in a ≡ false
  unfolding update_profiles is_logged_in
  updated_in ps a h = ground (arith, h)

module _ {E : Env} {m : Mode} (q : m.syncing ≡ false) where
  failed-Keeps : (f : Failure) → Keeps (IsSound m) (registration_failed {E = E} f)
  failed-Keeps (Failure.message text) = if-Keeps _ (throw-Keeps _) (throw-Keeps _)
  failed-Keeps (Failure.api e) = throw-Keeps _
  failed-Keeps Failure.wrong_key = throw-Keeps _
  failed-Keeps (Failure.unexpected t n) = throw-Keeps _

  register-Keeps : (e a : String) (k : E.Key) → Keeps (IsSound m) (register {E = E} e a k)
  unfolding register
  register-Keeps e a k = bind-Keeps (gets-Keeps _) (λ bytes.
      bind-Keeps (or_throw-Keeps _ _)
        (λ key. bind-Keeps (catching-Keeps failed-Keeps (remotely-Keeps _)) (λ r. pure-Keeps _)))

  sign_in_failed-Keeps :
      (e a : String) (k : E.Key) (f : Failure) → Keeps (IsSound m) (sign_in_failed {E = E} e a k f)
  unfolding sign_in_failed
  sign_in_failed-Keeps e a k (Failure.api ApiError.invalid_credentials) = register-Keeps e a k
  sign_in_failed-Keeps e a k (Failure.api ApiError.auth_expired) = throw-Keeps _
  sign_in_failed-Keeps e a k (Failure.api ApiError.account_revoked) = throw-Keeps _
  sign_in_failed-Keeps e a k (Failure.api ApiError.http_error) = throw-Keeps _
  sign_in_failed-Keeps e a k (Failure.api ApiError.request_failed) = throw-Keeps _
  sign_in_failed-Keeps e a k (Failure.api ApiError.bad_payload) = throw-Keeps _
  sign_in_failed-Keeps e a k Failure.wrong_key = throw-Keeps _
  sign_in_failed-Keeps e a k (Failure.message t) = throw-Keeps _
  sign_in_failed-Keeps e a k (Failure.unexpected t n) = throw-Keeps _

  sign_in-Keeps : (e a : String) (k : E.Key) → Keeps (IsSound m) (sign_in {E = E} e a k)
  unfolding sign_in
  sign_in-Keeps e a k =
      catching-Keeps (sign_in_failed-Keeps e a k)
        (bind-Keeps (remotely-Keeps _) (λ r. pure-Keeps _))

  pub set_pending_import-Keeps : (x : _) → Keeps (IsSound m) (set_pending_import {E = E} x)
  unfolding set_pending_import
  set_pending_import-Keeps x = modify-Keeps _ (λ w i. i)

  pub handle_login-Keeps :
      (e a : String) (bytes : Raw) → Keeps (IsSound m) (handle_login {E = E} e a bytes)
  unfolding handle_login set_session is_logged_in
  handle_login-Keeps e a bytes =
      catching-Keeps (λ f. pure-Keeps _)
        (bind-Keeps (or_throw-Keeps _ _) (λ k. bind-Keeps (sign_in-Keeps e a k) (λ acc.
          if-Keeps _ (throw-Keeps _) (
            bind-Keeps (or_throw-Keeps _ _) (λ raw. bind-Keeps (or_throw-Keeps _ _) (λ key.
              bind-Keeps (or_throw-Keeps _ _) (λ p.
                bind-Keeps (modify-Keeps _ (λ w i. (i.0, λ h. absurd (ground (arith, h))))) (λ u.
                  bind-Keeps (initialize_docs-Keeps q p false true) (λ s.
                    option-Keeps s.pending_import
                      (bind-Keeps (modify-Keeps _ (λ w i. i))
                        (λ b. bind-Keeps start_sync-Keeps (λ c. pure-Keeps _)))
                      (λ diff. bind-Keeps (set_pending_import-Keeps _) (λ b. pure-Keeps _)))))))))))

  changes-Keeps : (s : Option Raw) → Keeps (IsSound m) (changes_while_locked {E = E} s)
  unfolding changes_while_locked
  changes-Keeps none = pure-Keeps _
  changes-Keeps (some bytes) =
      bind-Keeps (init_doc-Keeps _)
        (λ a. bind-Keeps reset-Keeps (λ b. bind-Keeps offline_changes-Keeps (λ c. pure-Keeps _)))

  pub handle_unlock-Keeps : (bytes : Raw) → Keeps (IsSound m) (handle_unlock {E = E} bytes)
  unfolding handle_unlock
  handle_unlock-Keeps bytes =
      catching-Keeps (λ f. pure-Keeps _)
        (bind-Keeps (or_throw-Keeps _ _) (λ key.
          update-Keeps (set_encryption_key key bytes) _ _ (key_set_in key bytes) (
            bind-Keeps (read-Keeps _ _) (λ p. bind-Keeps (load_id_map-Keeps p) (λ a.
              bind-Keeps (load_snapshot-Keeps p) (λ s. bind-Keeps (changes-Keeps s) (λ c.
                option-Keeps c
                  (bind-Keeps (modify-Keeps _ (λ w i. i)) (λ b.
                    bind-Keeps (initialize_docs-Keeps q p true false) (λ r.
                      bind-Keeps (modify-Keeps _ (λ w i. i))
                        (λ d. bind-Keeps start_sync-Keeps (λ e. gets-Keeps _)))))
                  (λ changes.
                    bind-Keeps (modify-Keeps _ (λ w i. i))
                      (λ b. bind-Keeps (modify-Keeps _ (λ w i. i)) (λ d. gets-Keeps _))))))))))

  complete-Keeps : (p : String) (x : Bool) → Keeps (IsSound m) (complete_unlock {E = E} p x)
  unfolding complete_unlock
  complete-Keeps p x =
      bind-Keeps (when-Keeps x (bind-Keeps merge_local_changes-Keeps (λ d. export-Keeps))) (λ a.
        bind-Keeps (last_seq_id-Keeps p)
          (λ n. bind-Keeps (sync_from-Keeps q p n false false) (λ b. reconcile_attach_end-Keeps)))

  lock_step : (w : World E) → IsSound m w → IsSound m (record w { auth = lock_session w.auth })
  lock_step w i = (i.0, λ h. i.1 (lock_in w.auth h))

  lock_again-Keeps : (f : Failure) → Keeps (IsSound m) (lock_again {E = E} f)
  lock_again-Keeps Failure.wrong_key =
      bind-Keeps (modify-Keeps _ lock_step) (λ a. modify-Keeps _ (λ w i. i))
  lock_again-Keeps (Failure.api e) = pure-Keeps _
  lock_again-Keeps (Failure.message t) = pure-Keeps _
  lock_again-Keeps (Failure.unexpected t n) = pure-Keeps _

  pub handle_resolve_locked_changes-Keeps :
      (x : Bool) → Keeps (IsSound m) (handle_resolve_locked_changes {E = E} x)
  unfolding handle_resolve_locked_changes
  handle_resolve_locked_changes-Keeps x = bind-Keeps (gets-Keeps _) (λ pending.
      option-Keeps pending (pure-Keeps _) (λ p. if-Keeps (p == "") (pure-Keeps _) (
        bind-Keeps (modify-Keeps _ (λ w i. i)) (λ a.
          catching-Keeps (λ f. bind-Keeps (lock_again-Keeps f) (λ b. pure-Keeps _))
            (bind-Keeps (complete-Keeps p x) (λ b.
              bind-Keeps (modify-Keeps _ (λ w i. i))
                (λ c. bind-Keeps start_sync-Keeps (λ d. pure-Keeps _))))))))

  pub handle_lock-Keeps : Keeps (IsSound m) (handle_lock {E = E})
  unfolding handle_lock
  handle_lock-Keeps = bind-Keeps stop-Keeps (λ a. bind-Keeps detach-Keeps (λ b.
      bind-Keeps (modify-Keeps _ lock_step)
        (λ c. bind-Keeps (modify-Keeps _ (λ w i. i)) (λ d. pure-Keeps _))))
