-- ===== src/Background/Messages.antt =====
-- The messages of extension/src/types.ts between the popup and the service worker. An error is the
-- failure itself, of which the code makes a text.
use vaultmarks.Shared.{ℕ, String, Bool, Option, List}
use vaultmarks.Shared.Dict.{Dict}
use vaultmarks.Bookmarks.Node.{BookmarkNode}
use vaultmarks.Bookmarks.Offline.{Changes}
use vaultmarks.Bookmarks.Import.{ImportDiff}
use vaultmarks.Sync.Action.{Failure}
use vaultmarks.Auth.Store.{Raw, ProfileInfo, SessionTimeout}

pub data Choice : Type 0 where
  overwrite merge new_profile : Choice

-- The optional fields of "RESOLVE_IMPORT".
pub record ImportOptions : Type 0 where
  pub profile_name : Option String
  pub exclude_duplicates : Option Bool
  pub target_profile_id : Option String

pub data Message : Type 0 where
  login : String → String → Raw → Message
  unlock : Raw → Message
  change_password : String → String → String → Message
  resolve_locked_changes : Bool → Message
  resolve_import : Choice → ImportOptions → Message
  lock : Message
  logout : Bool → Message
  get_status : Message
  switch_profile : String → Message
  create_profile : String → Message
  delete_profile : String → Message
  rename_profile : String → String → Message
  set_session_timeout : SessionTimeout → Message
  sync : Message
  recompute_import_diff : String → Message
  export_profile : String → Message
  delete_account : String → Message

pub record Status : Type 0 where
  pub is_logged_in : Bool
  pub is_locked : Bool
  pub email : Option String
  pub profile : Option ProfileInfo
  pub profiles : List ProfileInfo
  pub last_synced : Option ℕ
  pub pending_changes : Option Changes
  pub pending_import : Option ImportDiff
  pub session_timeout : SessionTimeout

-- The parameters stand in the order of the fields.
pub data Response : Type 0 where
  login_success : List ProfileInfo → Option ImportDiff → Option Bool → Option Bool → Response
  login_error : Failure → Response
  unlock_success : Option ProfileInfo → List ProfileInfo → Option Changes → Response
  unlock_error : Failure → Response
  lock_success : Response
  resolve_success : Response
  resolve_error : Failure → Response
  resolve_import_success : Option ProfileInfo → Option ProfileInfo → Response
  resolve_import_error : Failure → Response
  logout_success : Response
  status : Status → Response
  sync_success : Option ℕ → List ProfileInfo → Response
  sync_error : Failure → Response
  switch_success : Response
  switch_error : Failure → Response
  create_profile_success : ProfileInfo → Response
  create_profile_error : Failure → Response
  delete_profile_success : Response
  delete_profile_error : Failure → Response
  rename_profile_success : String → Response
  rename_profile_error : Failure → Response
  set_session_timeout_success : Response
  recompute_import_diff_success : ImportDiff → Response
  recompute_import_diff_error : Failure → Response
  change_password_success : Response
  change_password_error : Failure → Response
  export_profile_success : Dict BookmarkNode → Response
  export_profile_error : Failure → Response
  delete_account_success : Response
  delete_account_error : Failure → Response
