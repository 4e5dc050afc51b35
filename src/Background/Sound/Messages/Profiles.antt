-- ===== src/Background/Sound/Messages/Profiles.antt =====
-- The handlers of the profiles keep the worker sound.
use vaultmarks.Shared.{String, true, false, none, some, List, [], ◌∷◌, ◌≡◌, refl}
use vaultmarks.Background.World.{Env, World}
use vaultmarks.Background.Keeping.{
  Keeps, bind-Keeps, pure-Keeps, throw-Keeps, gets-Keeps, catching-Keeps, modify-Keeps, if-Keeps,
  option-Keeps, modify-Moves, catching-Moves, Keeps-Moves, Moves-Keeps, pure-Returns,
}
use vaultmarks.Background.Sound.{
  Mode, idle, IsSound, read-Keeps, set_database-Keeps, remotely-Keeps, update-Keeps,
  load_snapshot-Keeps, detach-Keeps,
}
use vaultmarks.Background.Handlers.Profiles.{
  Command, switch_round, ask_to_switch, drain_switches, handle_switch_profile,
  handle_create_profile, handle_rename_profile, handle_delete_profile, handle_export_profile,
  on_command, delete_profile_data, seed_empty,
}
use vaultmarks.Background.Sound.Syncs.{start_sync-Keeps, stop-Keeps}
use vaultmarks.Background.Sound.Starts.{initialize_docs-Keeps}
use vaultmarks.Background.Sound.Messages.Session.{added_in, removed_in, updated_in}
use vaultmarks.Background.Sound.Messages.Conflict.{switch_to-Keeps}

abbrev in_switch : Mode → Mode
in_switch m = record m { switching = true }

module _ {E : Env} {m : Mode} (q : m.syncing ≡ false) where
  round-Keeps : (p : String) → Keeps (IsSound m) (switch_round {E = E} p)
  unfolding switch_round
  round-Keeps p = bind-Keeps (modify-Keeps _ (λ w i. i)) (λ a. bind-Keeps stop-Keeps (λ b.
      bind-Keeps detach-Keeps (λ c.
        bind-Keeps (switch_to-Keeps q p)
          (λ d. bind-Keeps (initialize_docs-Keeps q p false false) (λ e. start_sync-Keeps)))))

  ask_step : (ps : List String) (w : World E) → IsSound m w → IsSound m (ask_to_switch ps w)
  unfolding ask_to_switch
  ask_step [] w i = i
  ask_step (p ∷ ps) w i = ask_step ps (record w { pending_switch = some p }) i

  drain-Keeps :
      (asked : List (List String)) (p : String) → Keeps (IsSound m) (drain_switches {E = E} asked p)
  unfolding drain_switches
  drain-Keeps [] p = round-Keeps p
  drain-Keeps (ps ∷ later) p = bind-Keeps (round-Keeps p) (λ a.
      bind-Keeps (modify-Keeps _ (ask_step ps)) (λ b.
        bind-Keeps (gets-Keeps _)
          (λ t. option-Keeps t (pure-Keeps _) (λ t'. drain-Keeps later t'))))

module _ {E : Env} where
  switch_on :
      (w : World E)
      → IsSound idle w
      → IsSound
          (in_switch idle)
          (record w { flags = record w.flags { switch_in_progress = true }; pending_switch = none })
  switch_on w i = ((i.0.0, refl, i.0.2, i.0.3, i.0.4), i.1)

  switch_off :
      (w : World E)
      → IsSound (in_switch idle) w
      → IsSound idle (record w {
        flags = record w.flags { switch_in_progress = false };
        pending_switch = none;
      })
  switch_off w i = ((i.0.0, refl, i.0.2, i.0.3, i.0.4), i.1)

  pub handle_switch-Keeps :
      (asked : List (List String)) (p : String)
      → Keeps (IsSound idle) (handle_switch_profile {E = E} asked p)
  unfolding handle_switch_profile
  handle_switch-Keeps asked p = bind-Keeps (gets-Keeps _) (λ locked.
      bind-Keeps (gets-Keeps _) (λ busy. if-Keeps locked (pure-Keeps _) (
        if-Keeps busy (bind-Keeps (modify-Keeps _ (λ w i. i)) (λ a. pure-Keeps _)) (
          Moves-Keeps (
            modify-Moves _ _ switch_on (
              catching-Moves (λ e. pure-Returns _) (λ e. pure-Keeps _)
                (bind-Keeps (drain-Keeps refl asked p) (λ a. pure-Keeps _))
                (λ r.
                  modify-Moves _ _ switch_off
                    (Keeps-Moves (bind-Keeps (read-Keeps _ _) (λ a. pure-Keeps _))))))))))

  seed-Keeps : (p : String) → Keeps (IsSound idle) (seed_empty {E = E} p)
  unfolding seed_empty
  seed-Keeps p =
      bind-Keeps (set_database-Keeps _ (λ w s i. i) (λ w i. i))
        (λ a. set_database-Keeps _ (λ w s i. i) (λ w i. i))

  delete_data-Keeps : (p : String) → Keeps (IsSound idle) (delete_profile_data {E = E} p)
  unfolding delete_profile_data
  delete_data-Keeps p =
      bind-Keeps (set_database-Keeps _ (λ w s i. i) (λ w i. i))
        (λ a. set_database-Keeps _ (λ w s i. i) (λ w i. i))

  pub handle_create-Keeps :
      (name : String) → Keeps (IsSound idle) (handle_create_profile {E = E} name)
  unfolding handle_create_profile
  handle_create-Keeps name =
      catching-Keeps (λ e. pure-Keeps _)
        (bind-Keeps (read-Keeps _ _) (λ k. bind-Keeps (read-Keeps _ _) (λ t.
          bind-Keeps (remotely-Keeps _) (λ p.
            update-Keeps _ _ _ (added_in p) (bind-Keeps (seed-Keeps p.id) (λ a. pure-Keeps _))))))

  pub handle_rename-Keeps :
      (p name : String) → Keeps (IsSound idle) (handle_rename_profile {E = E} p name)
  unfolding handle_rename_profile
  handle_rename-Keeps p name = if-Keeps _ (pure-Keeps _) (
      catching-Keeps (λ e. pure-Keeps _)
        (bind-Keeps (read-Keeps _ _) (λ t. bind-Keeps (remotely-Keeps _) (λ a.
          bind-Keeps (modify-Keeps _ (λ w i. (i.0, λ h. i.1 (updated_in _ w.auth h))))
            (λ b. pure-Keeps _)))))

  pub handle_delete-Keeps : (p : String) → Keeps (IsSound idle) (handle_delete_profile {E = E} p)
  unfolding handle_delete_profile
  handle_delete-Keeps p = bind-Keeps (read-Keeps _ _) (λ active. if-Keeps _ (pure-Keeps _) (
      catching-Keeps (λ e. pure-Keeps _)
        (bind-Keeps (read-Keeps _ _) (λ t. bind-Keeps (remotely-Keeps _) (λ a.
          bind-Keeps (modify-Keeps _ (λ w i. (i.0, λ h. i.1 (removed_in p w.auth h))))
            (λ b. bind-Keeps (delete_data-Keeps p) (λ c. pure-Keeps _)))))))

  pub handle_export-Keeps : (p : String) → Keeps (IsSound idle) (handle_export_profile {E = E} p)
  unfolding handle_export_profile
  handle_export-Keeps p =
      bind-Keeps (load_snapshot-Keeps p) (λ s. option-Keeps s (pure-Keeps _) (λ b. pure-Keeps _))

  pub on_command-Keeps :
      (asked : List (List String)) (c : Command) → Keeps (IsSound idle) (on_command {E = E} asked c)
  unfolding on_command
  on_command-Keeps asked c = bind-Keeps (gets-Keeps _) (λ i. if-Keeps i (pure-Keeps _) (
      bind-Keeps (gets-Keeps _) (λ ps. bind-Keeps (read-Keeps _ _) (λ active.
        option-Keeps _ (throw-Keeps _)
          (λ p. bind-Keeps (handle_switch-Keeps asked p.id) (λ r. pure-Keeps _))))))
