-- ===== src/Tests/Auth.antt =====
-- The theorems on extension/src/auth/session.ts at a concrete session.
use vaultmarks.Shared.{
  true, Option, none, some, List, [], ◌∷◌, ◌≡◌, ◌≢◌, refl, arith, if◌then◌else◌,
}
use vaultmarks.Auth.Store.{on_restart, never, is_never, Raw, Auth, NewSession, initial}
use vaultmarks.Auth.Session.{
  set_session_timeout, set_session, lock_session, is_logged_in, is_locked, raw_of,
  get_encryption_key, restore_from_session_storage,
}
use vaultmarks.Auth.Session.Keys.{
  Op, session_set, timeout_set, restored, worker_ended, browser_ended, apply, run, key_not_kept,
  lock_forgets,
}
use vaultmarks.Auth.Session.Restore.{rebuilt, restore-set}

-- Any bytes but none are a key.
abbrev import_key : Raw → Option Raw
import_key [] = none
import_key (b ∷ bs) = some (b ∷ bs)

abbrev session : NewSession Raw
session = record {
  jwt = "token";
  email = "a@b.example";
  encryption_key = 7 ∷ [];
  encryption_key_raw = 7 ∷ [];
  protected_symmetric_key = "psk";
  user_id = "";
  profiles = record { id = "p"; name = "Default" } ∷ [];
  active_profile_id = "p";
}

-- The key was kept and the user turned that off again.
abbrev history : List (Op Raw)
history =
    timeout_set never ∷ session_set session ∷ worker_ended ∷ restored ∷ timeout_set on_restart ∷ []

not_never : (run import_key history (initial Raw)).local.session_timeout ≢ some never
unfolding run apply set_session_timeout set_session restore_from_session_storage
not_never h = ground (arith, h)

key_not_kept_example :
    ((run import_key history (initial Raw)).local.encryption_key_raw ≡ none)
    × (get_encryption_key (
          apply import_key restored
            (apply import_key browser_ended (run import_key history (initial Raw))))
        ≡ none)
key_not_kept_example = key_not_kept import_key history not_never

abbrev logged_in : Auth Raw
logged_in = set_session session (initial Raw)

lock_forgets_example :
    (is_locked (lock_session logged_in) ≡ true)
    × (raw_of (lock_session logged_in).session ≡ none)
    × ((lock_session logged_in).ephemeral_key ≡ none)
    × ((lock_session logged_in).local.encryption_key_raw ≡ none)
    × (get_encryption_key (apply import_key restored (lock_session logged_in)) ≡ none)
    × (get_encryption_key
          (apply import_key restored (apply import_key worker_ended (lock_session logged_in)))
        ≡ none)
    × (get_encryption_key
          (apply import_key restored (apply import_key browser_ended (lock_session logged_in)))
        ≡ none)
lock_forgets_example = lock_forgets import_key logged_in (unfold set_session is_logged_in in refl)

abbrev kept : Auth Raw
kept = record (initial Raw) {
  timeout = never;
  local = record (initial Raw).local { session_timeout = some never };
}

restore-set_example :
    ((restore_from_session_storage import_key
        (apply import_key worker_ended (set_session session kept))).0.session
      ≡ some (rebuilt session (some (7 ∷ [])) (some (7 ∷ []))))
    × ((restore_from_session_storage import_key
          (apply import_key browser_ended (set_session session kept))).0.session
        ≡ some (
            if is_never kept.timeout
            then rebuilt session (some (7 ∷ [])) (some (7 ∷ []))
            else rebuilt session none none))
restore-set_example =
    restore-set import_key session kept
      (record { jwt = refl; email = refl; active = refl; psk = refl }) refl refl
