-- ===== src/Auth/Session.antt =====
-- extension/src/auth/session.ts: the session in memory and its copies in the browser's two stores.
-- The key import of Web Crypto is a parameter.
pub mod Keys
pub mod Restore
use vaultmarks.Shared.{
  ℕ, String, Bool, true, false, not, Option, none, some, List, [], ◌∷◌, ◌++◌, ◌==◌, ◌&&◌, ◌||◌,
  if◌then◌else◌, or_else, is_some, map,
}
use vaultmarks.Bookmarks.Node.{truthy}
use mathlib.Core.Option
use vaultmarks.Auth.Store.{
  ProfileInfo, SessionTimeout, on_restart, never, is_never, Raw, Session, LocalStore, Auth,
  no_local, NewSession,
}

-- `chrome.storage.local.set(…)` of the raw key where the timeout is "never".
abbrev pub persist_key : SessionTimeout → Raw → Option Raw → Option Raw
persist_key t raw stored = if is_never t then some raw else stored

-- `profiles.find((p) => p.id === id)`
unfoldable pub find_profile : String → List ProfileInfo → Option ProfileInfo
find_profile id [] = none
find_profile id (p ∷ ps) = if p.id == id then some p else find_profile id ps

unfoldable pub without_profile : String → List ProfileInfo → List ProfileInfo
without_profile id [] = []
without_profile id (p ∷ ps) =
    let rest = without_profile id ps in if p.id == id then rest else p ∷ rest

module _ {K : Type 0} where
  abbrev pub raw_of : Option (Session K) → Option Raw
  raw_of none = none
  raw_of (some s) = s.encryption_key_raw

  unfoldable pub set_session_timeout : SessionTimeout → Auth K → Auth K
  set_session_timeout never a = record a {
    timeout = never;
    local = record a.local {
      session_timeout = some never;
      encryption_key_raw = elim (raw_of a.session) [
        | none ↦ a.local.encryption_key_raw
        | some raw ↦ some raw
      ];
    };
  }
  set_session_timeout on_restart a = record a {
    timeout = on_restart;
    local = record a.local { session_timeout = some on_restart; encryption_key_raw = none };
  }

  unfoldable pub set_session : NewSession K → Auth K → Auth K
  set_session s a = record a {
    session = some (record {
      jwt = s.jwt;
      email = s.email;
      encryption_key = some s.encryption_key;
      encryption_key_raw = some s.encryption_key_raw;
      protected_symmetric_key = s.protected_symmetric_key;
      user_id = s.user_id;
      profiles = s.profiles;
      active_profile_id = s.active_profile_id;
    });
    local = record a.local {
      jwt = some s.jwt;
      email = some s.email;
      profiles = some s.profiles;
      active_profile_id = some s.active_profile_id;
      protected_symmetric_key = some s.protected_symmetric_key;
      encryption_key_raw = persist_key a.timeout s.encryption_key_raw a.local.encryption_key_raw;
    };
    ephemeral_key = some s.encryption_key_raw;
  }

  unfoldable pub clear_session : Auth K → Auth K
  clear_session a = record a {
    session = none;
    local = record no_local { session_timeout = a.local.session_timeout };
    ephemeral_key = none;
  }

  -- An operation that throws "Not logged in" is `none`.
  unfoldable pub update_protected_symmetric_key : String → Auth K → Option (Auth K)
  update_protected_symmetric_key psk a = elim a.session [
    | none ↦ none
    | some s ↦ some (record a {
      session = some (record s { protected_symmetric_key = psk });
      local = record a.local { protected_symmetric_key = some psk };
    })
  ]

  unfoldable pub update_jwt : String → Auth K → Option (Auth K)
  update_jwt jwt a = elim a.session [
    | none ↦ none
    | some s ↦ some (record a {
      session = some (record s { jwt = jwt });
      local = record a.local { jwt = some jwt };
    })
  ]

  unfoldable pub lock_session : Auth K → Auth K
  lock_session a = elim a.session [
    | none ↦ a
    | some s ↦ record a {
      session = some (record s { encryption_key = none; encryption_key_raw = none });
      local = record a.local { encryption_key_raw = none };
      ephemeral_key = none;
    }
  ]

  unfoldable pub set_encryption_key : K → Raw → Auth K → Option (Auth K)
  set_encryption_key key raw a = elim a.session [
    | none ↦ none
    | some s ↦ some (record a {
      session = some (record s { encryption_key = some key; encryption_key_raw = some raw });
      local = record a.local {
        encryption_key_raw = persist_key a.timeout raw a.local.encryption_key_raw;
      };
      ephemeral_key = some raw;
    })
  ]

  -- The fields that a restore needs, none of them missing or empty.
  unfoldable pub stored_session : LocalStore → Option (Session K)
  stored_session l =
      if truthy l.jwt
        && (truthy l.email
            && (is_some l.profiles
                && (truthy l.active_profile_id && truthy l.protected_symmetric_key)))
      then some (record {
        jwt = or_else l.jwt "";
        email = or_else l.email "";
        encryption_key = none;
        encryption_key_raw = none;
        protected_symmetric_key = or_else l.protected_symmetric_key "";
        user_id = "";
        profiles = or_else l.profiles [];
        active_profile_id = or_else l.active_profile_id "";
      })
      else none

  -- `session.encryptionKeyRaw ?? (never ? local.encryptionKeyRaw : undefined)`
  unfoldable pub stored_key : SessionTimeout → Auth K → Option Raw
  stored_key t a = elim a.ephemeral_key [
    | some raw ↦ some raw
    | none ↦ if is_never t then a.local.encryption_key_raw else none
  ]

  -- The rest of the restore, once the stored key and its import are known.
  unfoldable pub restore_with :
      (Raw → Option K) → SessionTimeout → Session K → Option Raw → Auth K → Auth K
  restore_with import_key t s none a = record a { session = some s; timeout = t }
  restore_with import_key t s (some raw) a = elim (import_key raw) [
    | some key ↦ record a {
      session = some (record s { encryption_key = some key; encryption_key_raw = some raw });
      timeout = t;
    }
    | none ↦ record a {
      session = some s;
      timeout = t;
      local = record a.local {
        encryption_key_raw = if is_never t then none else a.local.encryption_key_raw;
      };
      ephemeral_key = none;
    }
  ]

  unfoldable pub restore_from_session_storage : (Raw → Option K) → Auth K → Auth K × Bool
  restore_from_session_storage import_key a =
      let t = or_else a.local.session_timeout on_restart in
      elim (stored_session a.local) [
        | none ↦ (record a { timeout = t }, false)
        | some s ↦ (restore_with import_key t s (stored_key t a) a, true)
      ]

  unfoldable pub is_logged_in : Auth K → Bool
  is_logged_in a = is_some a.session

  unfoldable pub is_locked : Auth K → Bool
  is_locked a = elim a.session [ none ↦ false | some s ↦ not (is_some s.encryption_key) ]

  unfoldable pub get_session_timeout : Auth K → SessionTimeout
  get_session_timeout a = a.timeout

  -- A getter that throws "Not logged in" is `none`, as one that returns undefined.
  unfoldable pub get_email : Auth K → Option String
  get_email a = Option.map (λ s. s.email) a.session

  unfoldable pub get_protected_symmetric_key : Auth K → Option String
  get_protected_symmetric_key a = Option.map (λ s. s.protected_symmetric_key) a.session

  unfoldable pub get_jwt : Auth K → Option String
  get_jwt a = Option.map (λ s. s.jwt) a.session

  unfoldable pub get_encryption_key : Auth K → Option K
  get_encryption_key a = elim a.session [ none ↦ none | some s ↦ s.encryption_key ]

  unfoldable pub get_active_profile_id : Auth K → Option String
  get_active_profile_id a = Option.map (λ s. s.active_profile_id) a.session

  unfoldable pub get_profiles : Auth K → List ProfileInfo
  get_profiles a = elim a.session [ none ↦ [] | some s ↦ s.profiles ]

  unfoldable pub get_active_profile : Auth K → Option ProfileInfo
  get_active_profile a = elim a.session [
    | none ↦ none
    | some s ↦ find_profile s.active_profile_id s.profiles
  ]

  abbrev write_profiles : List ProfileInfo → Session K → Auth K → Auth K
  write_profiles ps s a = record a {
    session = some (record s { profiles = ps });
    local = record a.local { profiles = some ps };
  }

  unfoldable pub add_profile : ProfileInfo → Auth K → Option (Auth K)
  add_profile p a = elim a.session [
    | none ↦ none
    | some s ↦ some (write_profiles (s.profiles ++ p ∷ []) s a)
  ]

  unfoldable pub remove_profile : String → Auth K → Auth K
  remove_profile id a = elim a.session [
    | none ↦ a
    | some s ↦ write_profiles (without_profile id s.profiles) s a
  ]

  unfoldable pub update_profiles : List ProfileInfo → Auth K → Auth K
  update_profiles ps a = elim a.session [ none ↦ a | some s ↦ write_profiles ps s a ]

  -- "Not logged in" and "Profile not found" are both `none`.
  unfoldable pub switch_profile : String → Auth K → Option (Auth K)
  switch_profile id a = elim a.session [
    | none ↦ none
    | some s ↦
        if is_some (find_profile id s.profiles)
        then some (record a {
          session = some (record s { active_profile_id = id });
          local = record a.local { active_profile_id = some id };
        })
        else none
  ]
