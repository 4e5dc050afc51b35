-- ===== src/Auth/Session/Keys.antt =====
-- Where the encryption key is kept, whatever the operations and restarts.
use vaultmarks.Shared.{
  String, true, Option, none, some, List, [], ◌∷◌, or_else, ◌≡◌, ◌≢◌, ◌⊎◌, inl, inr, refl, arith,
  Option-cases,
}
use vaultmarks.Auth.Store.{
  ProfileInfo, SessionTimeout, on_restart, never, Raw, Session, Auth, NewSession, initial,
}
use vaultmarks.Auth.Session.{
  set_session_timeout, set_session, clear_session, update_protected_symmetric_key, update_jwt,
  lock_session, set_encryption_key, stored_session, stored_key, restore_with,
  restore_from_session_storage, is_logged_in, is_locked, get_encryption_key, add_profile,
  remove_profile, update_profiles, switch_profile, raw_of,
}

-- Every operation of the module, the end of the service worker (its memory is lost) and of the
-- browser (the memory and chrome.storage.session are lost).
pub data Op (K : Type 0) : Type 0 where
  timeout_set : SessionTimeout → Op K
  session_set : NewSession K → Op K
  session_cleared : Op K
  psk_updated : String → Op K
  jwt_updated : String → Op K
  locked : Op K
  key_set : K → Raw → Op K
  restored : Op K
  profile_added : ProfileInfo → Op K
  profile_removed : String → Op K
  profiles_updated : List ProfileInfo → Op K
  switched : String → Op K
  worker_ended : Op K
  browser_ended : Op K

module _ {K : Type 0} (import_key : Raw → Option K) where
  -- An operation that throws changes nothing.
  unfoldable pub apply : Op K → Auth K → Auth K
  apply (timeout_set t) a = set_session_timeout t a
  apply (session_set s) a = set_session s a
  apply session_cleared a = clear_session a
  apply (psk_updated p) a = or_else (update_protected_symmetric_key p a) a
  apply (jwt_updated j) a = or_else (update_jwt j a) a
  apply locked a = lock_session a
  apply (key_set k raw) a = or_else (set_encryption_key k raw a) a
  apply restored a = (restore_from_session_storage import_key a).0
  apply (profile_added p) a = or_else (add_profile p a) a
  apply (profile_removed id) a = remove_profile id a
  apply (profiles_updated ps) a = update_profiles ps a
  apply (switched id) a = or_else (switch_profile id a) a
  apply worker_ended a = record a { session = none; timeout = on_restart }
  apply browser_ended a = record a { session = none; timeout = on_restart; ephemeral_key = none }

  unfoldable pub run : List (Op K) → Auth K → Auth K
  run [] a = a
  run (o ∷ os) a = run os (apply o a)

  -- A key in chrome.storage.local, or a timeout "never" in memory, goes with the stored timeout.
  pub record IsGuarded (a : Auth K) : Type 0 where
    pub stored : (a.local.encryption_key_raw ≡ none) ⊎ (a.local.session_timeout ≡ some never)
    pub remembered : (a.timeout ≡ on_restart) ⊎ (a.local.session_timeout ≡ some never)

  restore_with-IsGuarded :
      (t : SessionTimeout) (s : Session K) (o : Option Raw) (a : Auth K)
      → (t ≡ on_restart) ⊎ (a.local.session_timeout ≡ some never)
      → IsGuarded a
      → IsGuarded (restore_with import_key t s o a)
  unfolding restore_with
  restore_with-IsGuarded t s none a r g = record { stored = g.stored; remembered = r }
  restore_with-IsGuarded t s (some raw) a r g = elim (Option-cases (import_key raw)) [
    | inl e ↦ rw (e, restore_with) (record { stored = ground (arith, g.stored); remembered = r })
    | inr (k, e) ↦ rw (e, restore_with) (record { stored = g.stored; remembered = r })
  ]

  timeout_guard :
      (o : Option SessionTimeout) → (or_else o on_restart ≡ on_restart) ⊎ (o ≡ some never)
  timeout_guard none = inl refl
  timeout_guard (some on_restart) = inl refl
  timeout_guard (some never) = inr refl

  restore-IsGuarded :
      (a : Auth K) → IsGuarded a → IsGuarded (restore_from_session_storage import_key a).0
  unfolding restore_from_session_storage
  restore-IsGuarded a g = elim (Option-cases (stored_session {K = K} a.local)) [
    | inl e ↦
        rw (e, restore_from_session_storage)
          (record { stored = g.stored; remembered = timeout_guard a.local.session_timeout })
    | inr (s, e) ↦
        rw (e, restore_from_session_storage)
          (restore_with-IsGuarded (or_else a.local.session_timeout on_restart) s
            (stored_key (or_else a.local.session_timeout on_restart) a) a
            (timeout_guard a.local.session_timeout) g)
  ]

  apply-IsGuarded : (o : Op K) (a : Auth K) → IsGuarded a → IsGuarded (apply o a)
  unfolding apply set_session_timeout set_session clear_session update_protected_symmetric_key
      update_jwt lock_session set_encryption_key add_profile remove_profile update_profiles
      switch_profile
  apply-IsGuarded (timeout_set never) a g = record { stored = inr refl; remembered = inr refl }
  apply-IsGuarded (timeout_set on_restart) a g = record { stored = inl refl; remembered = inl refl }
  apply-IsGuarded (session_set s) a g = record {
    stored = ground (arith, g.stored, g.remembered);
    remembered = g.remembered;
  }
  apply-IsGuarded session_cleared a g = record { stored = inl refl; remembered = g.remembered }
  apply-IsGuarded (psk_updated p) a g = ground (arith, g.stored, g.remembered)
  apply-IsGuarded (jwt_updated j) a g = ground (arith, g.stored, g.remembered)
  apply-IsGuarded locked a g = ground (arith, g.stored, g.remembered)
  apply-IsGuarded (key_set k raw) a g = ground (arith, g.stored, g.remembered)
  apply-IsGuarded restored a g = restore-IsGuarded a g
  apply-IsGuarded (profile_added p) a g = ground (arith, g.stored, g.remembered)
  apply-IsGuarded (profile_removed id) a g = ground (arith, g.stored, g.remembered)
  apply-IsGuarded (profiles_updated ps) a g = ground (arith, g.stored, g.remembered)
  apply-IsGuarded (switched id) a g = ground (arith, g.stored, g.remembered)
  apply-IsGuarded worker_ended a g = record { stored = g.stored; remembered = inl refl }
  apply-IsGuarded browser_ended a g = record { stored = g.stored; remembered = inl refl }

  run-IsGuarded : (os : List (Op K)) (a : Auth K) → IsGuarded a → IsGuarded (run os a)
  unfolding run
  run-IsGuarded [] a g = g
  run-IsGuarded (o ∷ os) a g = run-IsGuarded os (apply o a) (apply-IsGuarded o a g)

  -- Without a stored key and without one in memory, a restore finds none.
  restored_locked :
      (a : Auth K)
      → a.local.encryption_key_raw ≡ none
      → a.ephemeral_key ≡ none
      → get_encryption_key a ≡ none
      → get_encryption_key (apply restored a) ≡ none
  unfolding apply restore_from_session_storage stored_key restore_with get_encryption_key
      stored_session
  restored_locked a h e k = ground arith

  restarted_locked :
      (a : Auth K)
      → a.local.encryption_key_raw ≡ none
      → get_encryption_key (apply restored (apply browser_ended a)) ≡ none
  restarted_locked a h =
      restored_locked (apply browser_ended a) (unfold apply in h) (unfold apply in refl)
        (unfold apply get_encryption_key in refl)

  -- From the state of a new installation, whatever operations and restarts happen: where the
  -- stored timeout is not "never", no raw key is in chrome.storage.local, and after the browser
  -- restarts and the session is restored no encryption key is in memory.
  pub key_not_kept :
      (os : List (Op K))
      → (run os (initial K)).local.session_timeout ≢ some never
      → ((run os (initial K)).local.encryption_key_raw ≡ none)
        × (get_encryption_key (apply restored (apply browser_ended (run os (initial K)))) ≡ none)
  key_not_kept os h =
      let g = run-IsGuarded os (initial K) (record { stored = inl refl; remembered = inl refl }) in
      elim g.stored [
        | inl gone ↦ (gone, restarted_locked (run os (initial K)) gone)
        | inr kept ↦ absurd (h kept)
      ]

  lock_fields :
      (a : Auth K)
      → is_logged_in a ≡ true
      → (is_locked (lock_session a) ≡ true)
        × (raw_of (lock_session a).session ≡ none)
        × ((lock_session a).ephemeral_key ≡ none)
        × ((lock_session a).local.encryption_key_raw ≡ none)
  unfolding lock_session is_locked is_logged_in
  lock_fields a h = ground arith

  shut_key : (a : Auth K) → is_locked a ≡ true → get_encryption_key a ≡ none
  unfolding is_locked get_encryption_key
  shut_key a h = ground arith

  -- Locking leaves no copy of the key: not in memory, not in either store, whatever the timeout;
  -- and a restore right after it, or after the worker or the browser ended, finds no key.
  pub lock_forgets :
      (a : Auth K)
      → is_logged_in a ≡ true
      → (is_locked (lock_session a) ≡ true)
        × (raw_of (lock_session a).session ≡ none)
        × ((lock_session a).ephemeral_key ≡ none)
        × ((lock_session a).local.encryption_key_raw ≡ none)
        × (get_encryption_key (apply restored (lock_session a)) ≡ none)
        × (get_encryption_key (apply restored (apply worker_ended (lock_session a))) ≡ none)
        × (get_encryption_key (apply restored (apply browser_ended (lock_session a))) ≡ none)
  lock_forgets a h =
      let l = lock_session a in
      let (shut, raw, eph, key) = lock_fields a h in
      (
        shut,
        raw,
        eph,
        key,
        restored_locked l key eph (shut_key l shut),
        restored_locked (apply worker_ended l) (unfold apply in key) (unfold apply in eph)
            (unfold apply get_encryption_key in refl),
        restarted_locked l key,
      )
