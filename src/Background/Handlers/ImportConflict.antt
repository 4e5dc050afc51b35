-- ===== src/Background/Handlers/ImportConflict.antt =====
-- `handleResolveImport` and `handleRecomputeImportDiff` of extension/src/background/index.ts.
use vaultmarks.Shared.{
  String, Bool, true, false, not, Option, none, some, ◌==◌, or_else, if◌then◌else◌, is_some,
}
use vaultmarks.Bookmarks.Import.{ImportDiff}
use vaultmarks.Sync.Requests.{api_create_profile, api_delete_profile}
use vaultmarks.Sync.Action.{
  Failure, pure, throw, gets, or_throw, modify, when, catching, ◌>>=◌, ◌>>◌,
}
use vaultmarks.Auth.Store.{Raw, ProfileInfo}
use vaultmarks.Auth.Session.{
  get_profiles, get_active_profile, find_profile, add_profile, remove_profile,
}
use vaultmarks.Background.World.{Env, Job}
use vaultmarks.Background.Messages.{
  Response, Choice, ImportOptions, overwrite, merge, new_profile, resolve_import_success,
  resolve_import_error, recompute_import_diff_success, recompute_import_diff_error,
}
use vaultmarks.Background.Steps.{
  remotely, jwt, encryption_key, not_logged_in, set_auth, init_doc, reset_version_cursor,
  load_id_map, load_snapshot, persist_snapshot, last_seq_id, enqueue_delta,
  export_and_enqueue_local_changes, import_diff, merge_import, bootstrap, reconcile_bookmarks,
  attach_bookmark_listeners,
}
use vaultmarks.Background.Syncing.{sync_from, start_sync}
use vaultmarks.Background.SignOut.{set_icon_locked}
use vaultmarks.Background.Handlers.Session.{set_pending_import}
use vaultmarks.Background.Handlers.Profiles.{switch_to_profile}

module _ {E : Env} where
  -- The document of a profile's local snapshot, or a new one.
  unfoldable pub restore_doc : Option Raw → Job E Unit
  restore_doc none = init_doc none
  restore_doc (some bytes) = init_doc (some bytes) >> reset_version_cursor

  -- The session is switched to the profile that was chosen, and its document is loaded and pulled
  -- without touching the browser's bookmarks.
  unfoldable pub enter_profile : String → Job E Unit
  unfolding restore_doc
  enter_profile profile = do
    switch_to_profile profile
    load_id_map profile
    stored ← load_snapshot profile
    restore_doc stored
    since ← if is_some stored then last_seq_id profile else pure 0
    sync_from profile since true false

  unfoldable pub resolve_overwrite : String → String → Job E Unit
  unfolding enter_profile
  resolve_overwrite original target = do
    persist_snapshot original
    when (not (target == original)) (enter_profile target >> persist_snapshot target)
    reconcile_bookmarks
    attach_bookmark_listeners

  unfoldable pub resolve_merge : String → String → Bool → Job E Unit
  unfolding enter_profile
  resolve_merge original target exclude_duplicates = do
    when (not (target == original)) (persist_snapshot original >> enter_profile target)
    merge_import exclude_duplicates
    export_and_enqueue_local_changes
    persist_snapshot target
    reconcile_bookmarks
    attach_bookmark_listeners

  -- The new profile's document is made of the browser's bookmarks.
  unfoldable pub fill_profile : String → Job E Unit
  fill_profile profile = do
    switch_to_profile profile
    load_id_map profile
    init_doc none
    count ← bootstrap profile
    bytes ← gets (λ w. E.export_snapshot w.bridge.doc)
    enqueue_delta bytes
    persist_snapshot profile
    reconcile_bookmarks
    attach_bookmark_listeners

  -- What undoes a new profile that could not be filled. That the profile cannot be deleted on the
  -- server is only logged.
  unfoldable pub roll_back : String → String → Job E Unit
  unfolding restore_doc
  roll_back original created = do
    switch_to_profile original
    modify (λ w. record w { auth = remove_profile created w.auth })
    token ← jwt
    catching (λ e. pure tt) (remotely (api_delete_profile E.fetch created token))
    load_id_map original
    stored ← load_snapshot original
    restore_doc stored

  -- The name is the trimmed one, or a default.
  abbrev pub new_name : Option String → Job E String
  new_name none = pure "Local Bookmarks"
  new_name (some name) = pure (if E.trim name == "" then "Local Bookmarks" else E.trim name)

  unfoldable pub resolve_new_profile : String → Option String → Job E ProfileInfo
  unfolding fill_profile roll_back
  resolve_new_profile original profile_name = do
    persist_snapshot original
    name ← new_name profile_name
    key ← encryption_key
    token ← jwt
    created ← remotely (api_create_profile E.fetch name (E.encrypt key (E.encode_text "{}")) token)
    added ← gets (λ w. add_profile created w.auth)
    auth ← or_throw added not_logged_in
    set_auth auth
    catching (λ e. roll_back original created.id >> throw e) (fill_profile created.id)
    pure created

  -- The profile is the new one, or the one that the session was switched to.
  unfoldable pub resolve_choice : Choice → ImportOptions → String → Job E Response
  unfolding resolve_overwrite resolve_merge resolve_new_profile
  resolve_choice overwrite o original = do
    resolve_overwrite original (or_else o.target_profile_id original)
    set_icon_locked false
    start_sync
    gets (λ w. resolve_import_success none (
        if or_else o.target_profile_id original == original
        then none
        else get_active_profile w.auth))
  resolve_choice merge o original = do
    resolve_merge original (or_else o.target_profile_id original)
        (or_else o.exclude_duplicates true)
    set_icon_locked false
    start_sync
    gets (λ w. resolve_import_success none (
        if or_else o.target_profile_id original == original
        then none
        else get_active_profile w.auth))
  resolve_choice new_profile o original = do
    created ← resolve_new_profile original o.profile_name
    set_icon_locked false
    start_sync
    pure (resolve_import_success (some created) none)

  unfoldable pub handle_resolve_import : Choice → ImportOptions → Job E Response
  unfolding resolve_choice
  handle_resolve_import c o = do
    pending ← gets (λ w. w.pending_import)
    elim pending [
      | none ↦ pure (resolve_import_error (Failure.message "No pending import to resolve."))
      | some p ↦ do
        set_pending_import none
        catching (λ e. pure (resolve_import_error e)) (resolve_choice c o p.profile_id)
    ]

  -- The diff with another profile; the document of the original one is loaded again afterwards.
  unfoldable pub compare_with : String → String → Job E ImportDiff
  unfolding restore_doc
  compare_with original profile = do
    init_doc none
    load_id_map profile
    sync_from profile 0 true false
    diff ← import_diff
    when (not (profile == original))
        (do stored ← load_snapshot original; load_id_map original; restore_doc stored)
    pure diff

  unfoldable pub handle_recompute_import_diff : String → Job E Response
  unfolding compare_with
  handle_recompute_import_diff profile = do
    pending ← gets (λ w. w.pending_import)
    found ← gets (λ w. is_some (find_profile profile (get_profiles w.auth)))
    elim pending [
      | none ↦ pure (recompute_import_diff_error (Failure.message "No pending import to resolve."))
      | some p ↦
          if found
          then catching (λ e. pure (recompute_import_diff_error e))
              (do
                diff ← compare_with p.profile_id profile
                set_pending_import (some (record { profile_id = p.profile_id; diff = diff }))
                pure (recompute_import_diff_success diff))
          else pure (recompute_import_diff_error (Failure.message "Profile not found."))
    ]
