-- ===== src/Background/Handlers/Profiles.antt =====
-- The handlers of extension/src/background/index.ts for the profiles: switch, create, rename,
-- delete and export, and the keyboard commands.
pub mod Commands
pub mod Others
pub mod Whole
pub mod Gone
use vaultmarks.Shared.{
  ℕ, zero, suc, ◌+◌, ◌-◌, String, Bool, true, false, not, Option, none, some, List, [], ◌∷◌, ◌==◌,
  ◌&&◌, ◌||◌, if◌then◌else◌, ltb, leb, length, map,
}
use vaultmarks.Shared.Integers.{ℤ, pos, negsuc, ◌+ℤ◌, rem_ℤ}
use vaultmarks.Shared.Dict.{Dict, get, put, delete}
use vaultmarks.Sync.Requests.{api_create_profile, api_rename_profile, api_delete_profile}
use vaultmarks.Sync.Action.{
  Failure, Action, Result, done, failed, pure, throw, gets, or_throw, modify, when, catching, ◌>>=◌,
  ◌>>◌,
}
use vaultmarks.Auth.Store.{Raw, ProfileInfo, Auth}
use vaultmarks.Auth.Session.{
  is_logged_in, is_locked, get_profiles, get_active_profile_id, add_profile, remove_profile,
  update_profiles, switch_profile,
}
use vaultmarks.Background.Exclusive.{Flags}
use vaultmarks.Background.World.{Env, Database, World, Job}
use vaultmarks.Background.Messages.{
  Response, switch_success, switch_error, create_profile_success, create_profile_error,
  rename_profile_success, rename_profile_error, delete_profile_success, delete_profile_error,
  export_profile_success, export_profile_error,
}
use vaultmarks.Background.Steps.{
  remotely, jwt, active_profile_id, encryption_key, not_logged_in, set_auth, set_database,
  load_snapshot, detach_bookmark_listeners,
}
use vaultmarks.Background.Syncing.{start_sync, stop_realtime_sync}
use vaultmarks.Background.Initialize.{initialize_docs}

-- `profiles.findIndex(…)`, which is -1 where nothing is found.
unfoldable pub index_of : String → List ProfileInfo → ℤ
index_of id [] = negsuc 0
index_of id (p ∷ ps) =
    let rest = index_of id ps in
    if p.id == id then pos 0 else elim rest [ pos i ↦ pos (suc i) | negsuc i ↦ negsuc i ]

pub data Command : Type 0 where
  next_profile prev_profile : Command

abbrev pub delta : Command → ℤ
delta next_profile = pos 1
delta prev_profile = negsuc 0

-- `(currentIdx + delta + profiles.length) % profiles.length`
unfoldable pub neighbour : Command → ℤ → ℕ → ℤ
unfolding ◌+ℤ◌ rem_ℤ
neighbour c current_idx n = rem_ℤ (current_idx +ℤ delta c +ℤ pos n) n

abbrev pub nth : List ProfileInfo → ℕ → Option ProfileInfo
nth [] i = none
nth (p ∷ ps) zero = some p
nth (p ∷ ps) (suc i) = nth ps i

-- `profiles[nextIdx]`
abbrev pub profile_at : List ProfileInfo → ℤ → Option ProfileInfo
profile_at ps (pos i) = nth ps i
profile_at ps (negsuc i) = none

-- The profile that a command switches to.
unfoldable pub target_of : Command → String → List ProfileInfo → Option ProfileInfo
unfolding index_of neighbour
target_of c active ps = profile_at ps (neighbour c (index_of active ps) (length ps))

unfoldable pub rename : String → String → ProfileInfo → ProfileInfo
rename id name p = if p.id == id then record p { name = name } else p

module _ {E : Env} where
  -- `deleteProfileData`, in two transactions.
  unfoldable pub delete_profile_data : String → Job E Unit
  delete_profile_data profile = do
    set_database (λ d. record d { snapshots = delete d.snapshots profile })
    set_database (λ d. record d {
      id_maps = delete d.id_maps profile;
      last_seqs = delete d.last_seqs profile;
      last_uploads = delete d.last_uploads profile;
    })

  unfoldable pub switch_to_profile : String → Job E Unit
  switch_to_profile profile = do
    switched ← gets (λ w. switch_profile profile w.auth)
    auth ← or_throw switched (Failure.message "Profile not found")
    set_auth auth

  -- One round of the loop of `handleSwitchProfile`.
  unfoldable pub switch_round : String → Job E Unit
  unfolding switch_to_profile
  switch_round target = do
    modify (λ w. record w { pending_switch = none })
    stop_realtime_sync
    detach_bookmark_listeners
    switch_to_profile target
    initialize_docs target false false
    start_sync

  -- The messages that ask for a switch while another one is running.
  unfoldable pub ask_to_switch : List String → World E → World E
  ask_to_switch [] w = w
  ask_to_switch (p ∷ ps) w = ask_to_switch ps (record w { pending_switch = some p })

  -- The loop, with the profiles that are asked for during each of its rounds.
  unfoldable pub drain_switches : List (List String) → String → Job E Unit
  unfolding switch_round ask_to_switch
  drain_switches [] target = switch_round target
  drain_switches (asked ∷ later) target = do
    switch_round target
    modify (ask_to_switch asked)
    next ← gets (λ w. w.pending_switch)
    elim next [ none ↦ pure tt | some t ↦ drain_switches later t ]

  abbrev pub set_switching : Bool → Job E Unit
  set_switching b =
      modify
        (λ w. record w { flags = record w.flags { switch_in_progress = b }; pending_switch = none })

  -- The `finally` reads the active profile, which throws where nobody is logged in.
  unfoldable pub handle_switch_profile : List (List String) → String → Job E Response
  unfolding drain_switches
  handle_switch_profile asked profile = do
    locked ← gets (λ w. is_locked w.auth)
    busy ← gets (λ w. w.flags.switch_in_progress)
    if locked
        then pure (switch_error (Failure.message "Session is locked."))
        else if busy
        then (do modify (λ w. record w { pending_switch = some profile }); pure switch_success)
        else (do
          set_switching true
          r ←
              catching (λ e. pure (switch_error e))
                (drain_switches asked profile >> pure switch_success)
          set_switching false
          active_profile_id
          pure r)

  -- The empty snapshot and the empty mapping of a new profile.
  unfoldable pub seed_empty : String → Job E Unit
  seed_empty profile = do
    set_database
        (λ d. record d { snapshots = put d.snapshots profile (E.export_snapshot E.loro.empty_doc) })
    set_database (λ d. record d { id_maps = put d.id_maps profile [] })

  unfoldable pub handle_create_profile : String → Job E Response
  unfolding seed_empty
  handle_create_profile name =
      catching (λ e. pure (create_profile_error e))
        (do
          key ← encryption_key
          token ← jwt
          created ←
              remotely (api_create_profile E.fetch name (E.encrypt key (E.encode_text "{}")) token)
          added ← gets (λ w. add_profile created w.auth)
          auth ← or_throw added not_logged_in
          set_auth auth
          seed_empty created.id
          pure (create_profile_success created))

  unfoldable pub handle_rename_profile : String → String → Job E Response
  unfolding rename
  handle_rename_profile profile name =
      if E.trim name == ""
      then pure (rename_profile_error (Failure.message "Profile name cannot be empty."))
      else catching (λ e. pure (rename_profile_error e))
          (do
            token ← jwt
            remotely (api_rename_profile E.fetch profile (E.trim name) token)
            modify (λ w. record w {
              auth =
                  update_profiles (map (rename profile (E.trim name)) (get_profiles w.auth)) w.auth;
            })
            pure (rename_profile_success (E.trim name)))

  -- The test for the active profile stands before the `try`.
  unfoldable pub handle_delete_profile : String → Job E Response
  unfolding delete_profile_data
  handle_delete_profile profile = do
    active ← active_profile_id
    if profile == active
        then pure (delete_profile_error (Failure.message "Cannot delete the active profile."))
        else catching (λ e. pure (delete_profile_error e))
            (do
              token ← jwt
              remotely (api_delete_profile E.fetch profile token)
              modify (λ w. record w { auth = remove_profile profile w.auth })
              delete_profile_data profile
              pure delete_profile_success)

  -- `getBookmarksFromSnapshot` reads a document of its own.
  unfoldable pub handle_export_profile : String → Job E Response
  handle_export_profile profile = do
    stored ← load_snapshot profile
    elim stored [
      | none ↦ pure (export_profile_error (Failure.message "No local data for this profile."))
      | some bytes ↦ pure (
          export_profile_success
            (E.loro.get_all_bookmarks (E.import_update bytes E.loro.empty_doc)))
    ]

  -- The keyboard commands.
  unfoldable pub on_command : List (List String) → Command → Job E Unit
  unfolding target_of
  on_command asked c = do
    idle ← gets (λ w.
        not (is_logged_in w.auth) || (is_locked w.auth || leb (length (get_profiles w.auth)) 1))
    if idle then pure tt else (do
      profiles ← gets (λ w. get_profiles w.auth)
      active ← active_profile_id
      elim (target_of c active profiles) [
        | none ↦ throw (Failure.message "Cannot read properties of undefined")
        | some p ↦ handle_switch_profile asked p.id >> pure tt
      ])
