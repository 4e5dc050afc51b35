-- ===== src/Auth/Store.antt =====
-- The session of extension/src/auth/session.ts and the browser's two stores, as records.
use vaultmarks.Shared.{ℕ, String, Bool, true, false, Option, none, List}

pub record ProfileInfo : Type 0 where
  pub id : String
  pub name : String

pub data SessionTimeout : Type 0 where
  on_restart never : SessionTimeout

abbrev pub is_never : SessionTimeout → Bool
is_never on_restart = false
is_never never = true

abbrev pub Raw : Type 0
Raw = List ℕ

pub record Session (K : Type 0) : Type 0 where
  pub jwt : String
  pub email : String
  pub encryption_key : Option K
  pub encryption_key_raw : Option Raw
  pub protected_symmetric_key : String
  pub user_id : String
  pub profiles : List ProfileInfo
  pub active_profile_id : String

-- chrome.storage.local, which survives a restart of the browser.
pub record LocalStore : Type 0 where
  pub jwt : Option String
  pub email : Option String
  pub profiles : Option (List ProfileInfo)
  pub active_profile_id : Option String
  pub protected_symmetric_key : Option String
  pub session_timeout : Option SessionTimeout
  pub encryption_key_raw : Option Raw

-- The module's variables, and the two stores. Of chrome.storage.session only the key is kept
-- here; the pending import is the background worker's.
pub record Auth (K : Type 0) : Type 0 where
  pub session : Option (Session K)
  pub timeout : SessionTimeout
  pub local : LocalStore
  pub ephemeral_key : Option Raw

abbrev pub no_local : LocalStore
no_local = record {
  jwt = none;
  email = none;
  profiles = none;
  active_profile_id = none;
  protected_symmetric_key = none;
  session_timeout = none;
  encryption_key_raw = none;
}

abbrev pub initial : (K : Type 0) → Auth K
initial K = record { session = none; timeout = on_restart; local = no_local; ephemeral_key = none }

-- The argument of `setSession`.
pub record NewSession (K : Type 0) : Type 0 where
  pub jwt : String
  pub email : String
  pub encryption_key : K
  pub encryption_key_raw : Raw
  pub protected_symmetric_key : String
  pub user_id : String
  pub profiles : List ProfileInfo
  pub active_profile_id : String
