-- ===== src/Auth/Session/Restore.antt =====
-- What a restore finds of a session that was set.
use vaultmarks.Shared.{
  false, Option, none, some, ◌≡◌, ◌==◌, refl, arith, if◌then◌else◌, or_else, ◌⊎◌, inl, inr, ◌∙◌,
  sym, ap,
}
use vaultmarks.Auth.Store.{
  SessionTimeout, on_restart, never, is_never, Raw, Session, Auth, NewSession,
}
use vaultmarks.Auth.Session.{
  set_session, stored_session, stored_key, restore_with, restore_from_session_storage,
}
use vaultmarks.Auth.Session.Keys.{apply, worker_ended, browser_ended}

module _ {K : Type 0} where
  -- No text that a restore needs is empty.
  pub record IsComplete (s : NewSession K) : Type 0 where
    pub jwt : (s.jwt == "") ≡ false
    pub email : (s.email == "") ≡ false
    pub active : (s.active_profile_id == "") ≡ false
    pub psk : (s.protected_symmetric_key == "") ≡ false

  -- The session that a restore rebuilds, with the key that it found.
  abbrev pub rebuilt : NewSession K → Option K → Option Raw → Session K
  rebuilt s key raw = record {
    jwt = s.jwt;
    email = s.email;
    encryption_key = key;
    encryption_key_raw = raw;
    protected_symmetric_key = s.protected_symmetric_key;
    user_id = "";
    profiles = s.profiles;
    active_profile_id = s.active_profile_id;
  }

  stored-set :
      (s : NewSession K) (a : Auth K)
      → IsComplete s
      → stored_session {K = K} (set_session s a).local ≡ some (rebuilt s none none)
  unfolding stored_session set_session
  stored-set s a c = rw (c.jwt, c.email, c.active, c.psk)

  restore_stored :
      (import_key : Raw → Option K) (a : Auth K) {s : Session K}
      → stored_session {K = K} a.local ≡ some s
      → (restore_from_session_storage import_key a).0.session
        ≡ (restore_with import_key
            (or_else a.local.session_timeout on_restart)
            s
            (stored_key (or_else a.local.session_timeout on_restart) a)
            a).session
  unfolding restore_from_session_storage
  restore_stored import_key a e = rw (e, restore_from_session_storage)

module _ {K : Type 0} (import_key : Raw → Option K) (s : NewSession K) (a : Auth K)
    (c : IsComplete s) (t : or_else a.local.session_timeout on_restart ≡ a.timeout) {key : K}
    (imported : import_key s.encryption_key_raw ≡ some key) where
  abbrev u : SessionTimeout
  u = or_else a.local.session_timeout on_restart

  abbrev after_worker : Auth K
  after_worker = apply import_key worker_ended (set_session s a)

  abbrev after_browser : Auth K
  after_browser = apply import_key browser_ended (set_session s a)

  key_worker :
      stored_key (or_else a.local.session_timeout on_restart) after_worker
      ≡ some s.encryption_key_raw
  unfolding stored_key apply set_session
  key_worker = refl

  key_browser :
      (or_else a.local.session_timeout on_restart ≡ on_restart)
        × (stored_key (or_else a.local.session_timeout on_restart) after_browser ≡ none)
      ⊎ (or_else a.local.session_timeout on_restart ≡ never)
        × (stored_key (or_else a.local.session_timeout on_restart) after_browser
            ≡ some s.encryption_key_raw)
  unfolding stored_key apply set_session
  key_browser = ground (arith, t)

  with_key :
      (u : SessionTimeout) (x : Auth K)
      → (restore_with import_key u (rebuilt s none none) (some s.encryption_key_raw) x).session
        ≡ some (rebuilt s (some key) (some s.encryption_key_raw))
  unfolding restore_with
  with_key u x = rw (imported, restore_with)

  at_never :
      (x : Auth K) {o : Option Raw} {u : SessionTimeout}
      → a.timeout ≡ u
      → (u ≡ on_restart) × (o ≡ none) ⊎ (u ≡ never) × (o ≡ some s.encryption_key_raw)
      → (restore_with import_key u (rebuilt s none none) o x).session
        ≡ some (
            if is_never a.timeout
            then rebuilt s (some key) (some s.encryption_key_raw)
            else rebuilt s none none)
  unfolding restore_with
  at_never x e (inl (u, o)) = rw (e, u, o, restore_with)
  at_never x e (inr (u, o)) = rw (e, u, o, with_key never x)

  -- A session that was set with no empty text, whose key can be imported, while the timeout in
  -- memory was the stored one: after the service worker ended, a restore rebuilds it with its key
  -- (and no user id), whatever the timeout; after the browser ended, it rebuilds it with its key
  -- where the timeout is "never", and without a key, so locked, where it is "on_restart".
  pub restore-set :
      ((restore_from_session_storage import_key after_worker).0.session
        ≡ some (rebuilt s (some key) (some s.encryption_key_raw)))
      × ((restore_from_session_storage import_key after_browser).0.session
          ≡ some (
              if is_never a.timeout
              then rebuilt s (some key) (some s.encryption_key_raw)
              else rebuilt s none none))
  unfolding set_session apply
  restore-set = (
    restore_stored import_key after_worker (stored-set s a c)
        ∙ ap (λ o. (restore_with import_key u (rebuilt s none none) o after_worker).session)
            key_worker
        ∙ with_key u after_worker,
    restore_stored import_key after_browser (stored-set s a c)
        ∙ at_never after_browser (sym t) key_browser,
  )
