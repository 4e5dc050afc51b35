-- ===== src/Background/Sound/Messages/Conflict.antt =====
-- The handlers of an import conflict keep the worker sound.
use vaultmarks.Shared.{String, Bool, true, false, Option, none, some, is_some, ◌≡◌}
use vaultmarks.Auth.Store.{Raw}
use vaultmarks.Background.World.{Env}
use vaultmarks.Background.Keeping.{
  Keeps, bind-Keeps, pure-Keeps, throw-Keeps, gets-Keeps, catching-Keeps, modify-Keeps, when-Keeps,
  if-Keeps, option-Keeps,
}
use vaultmarks.Background.Sound.{
  Mode, IsSound, read-Keeps, remotely-Keeps, update-Keeps, update_end-Keeps, init_doc-Keeps,
  reset-Keeps, load_id_map-Keeps, load_snapshot-Keeps, persist_snapshot-Keeps, last_seq_id-Keeps,
  enqueue_delta-Keeps, export-Keeps, import_diff-Keeps, merge_import-Keeps, bootstrap-Keeps,
  reconcile_attach_end-Keeps,
}
use vaultmarks.Auth.Session.{switch_profile}
use vaultmarks.Background.Messages.{Choice, ImportOptions, overwrite, merge, new_profile}
use vaultmarks.Background.Handlers.Profiles.{switch_to_profile}
use vaultmarks.Background.Sound.Syncs.{sync_from-Keeps, start_sync-Keeps}
use vaultmarks.Background.Handlers.ImportConflict.{
  new_name, restore_doc, enter_profile, resolve_overwrite, resolve_merge, fill_profile, roll_back,
  resolve_new_profile, resolve_choice, handle_resolve_import, compare_with,
  handle_recompute_import_diff,
}
use vaultmarks.Background.Sound.Messages.Session.{
  switched_in, added_in, removed_in, set_pending_import-Keeps,
}

module _ {E : Env} {m : Mode} (q : m.syncing ≡ false) where
  pub switch_to-Keeps : (p : String) → Keeps (IsSound m) (switch_to_profile {E = E} p)
  unfolding switch_to_profile
  switch_to-Keeps p = update_end-Keeps (switch_profile p) _ (switched_in p)

  restore_doc-Keeps : (s : Option Raw) → Keeps (IsSound m) (restore_doc {E = E} s)
  unfolding restore_doc
  restore_doc-Keeps none = init_doc-Keeps none
  restore_doc-Keeps (some bytes) = bind-Keeps (init_doc-Keeps _) (λ a. reset-Keeps)

  enter-Keeps : (p : String) → Keeps (IsSound m) (enter_profile {E = E} p)
  unfolding enter_profile
  enter-Keeps p = bind-Keeps (switch_to-Keeps p) (λ a. bind-Keeps (load_id_map-Keeps p) (λ b.
      bind-Keeps (load_snapshot-Keeps p) (λ s. bind-Keeps (restore_doc-Keeps s) (λ c.
        bind-Keeps (if-Keeps (is_some s) (last_seq_id-Keeps p) (pure-Keeps _))
          (λ n. sync_from-Keeps q p n true false)))))

  overwrite-Keeps : (o p : String) → Keeps (IsSound m) (resolve_overwrite {E = E} o p)
  unfolding resolve_overwrite
  overwrite-Keeps o p = bind-Keeps (persist_snapshot-Keeps o) (λ a.
      bind-Keeps (when-Keeps _ (bind-Keeps (enter-Keeps p) (λ b. persist_snapshot-Keeps p)))
        (λ c. reconcile_attach_end-Keeps))

  merge-Keeps : (o p : String) (x : Bool) → Keeps (IsSound m) (resolve_merge {E = E} o p x)
  unfolding resolve_merge
  merge-Keeps o p x =
      bind-Keeps (when-Keeps _ (bind-Keeps (persist_snapshot-Keeps o) (λ b. enter-Keeps p))) (λ a.
        bind-Keeps (merge_import-Keeps x) (λ b.
          bind-Keeps export-Keeps
            (λ c. bind-Keeps (persist_snapshot-Keeps p) (λ d. reconcile_attach_end-Keeps))))

  fill-Keeps : (p : String) → Keeps (IsSound m) (fill_profile {E = E} p)
  unfolding fill_profile
  fill-Keeps p = bind-Keeps (switch_to-Keeps p) (λ a. bind-Keeps (load_id_map-Keeps p) (λ b.
      bind-Keeps (init_doc-Keeps none) (λ c. bind-Keeps (bootstrap-Keeps p) (λ d.
        bind-Keeps (gets-Keeps _) (λ bytes.
          bind-Keeps (enqueue_delta-Keeps bytes)
            (λ e. bind-Keeps (persist_snapshot-Keeps p) (λ f. reconcile_attach_end-Keeps)))))))

  roll_back-Keeps : (o p : String) → Keeps (IsSound m) (roll_back {E = E} o p)
  unfolding roll_back
  roll_back-Keeps o p = bind-Keeps (switch_to-Keeps o) (λ a.
      bind-Keeps (modify-Keeps _ (λ w i. (i.0, λ h. i.1 (removed_in p w.auth h)))) (λ b.
        bind-Keeps (read-Keeps _ _) (λ t.
          bind-Keeps (catching-Keeps (λ e. pure-Keeps _) (remotely-Keeps _)) (λ c.
            bind-Keeps (load_id_map-Keeps o)
              (λ d. bind-Keeps (load_snapshot-Keeps o) (λ s. restore_doc-Keeps s))))))

  new_name-Keeps : (n : Option String) → Keeps (IsSound m) (new_name {E = E} n)
  new_name-Keeps none = pure-Keeps _
  new_name-Keeps (some n) = pure-Keeps _

  new_profile-Keeps :
      (o : String) (n : Option String) → Keeps (IsSound m) (resolve_new_profile {E = E} o n)
  unfolding resolve_new_profile
  new_profile-Keeps o n = bind-Keeps (persist_snapshot-Keeps o) (λ a.
      bind-Keeps (new_name-Keeps n) (λ name. bind-Keeps (read-Keeps _ _) (λ k.
        bind-Keeps (read-Keeps _ _) (λ t. bind-Keeps (remotely-Keeps _) (λ p.
          update-Keeps _ _ _ (added_in p) (
            bind-Keeps
              (catching-Keeps (λ e. bind-Keeps (roll_back-Keeps o _) (λ b. throw-Keeps _))
                (fill-Keeps _))
              (λ c. pure-Keeps _)))))))

  choice-Keeps :
      (c : Choice) (o : ImportOptions) (p : String)
      → Keeps (IsSound m) (resolve_choice {E = E} c o p)
  unfolding resolve_choice
  choice-Keeps overwrite o p = bind-Keeps (overwrite-Keeps p _) (λ a.
      bind-Keeps (modify-Keeps _ (λ w i. i)) (λ b. bind-Keeps start_sync-Keeps (λ c. gets-Keeps _)))
  choice-Keeps merge o p = bind-Keeps (merge-Keeps p _ _) (λ a.
      bind-Keeps (modify-Keeps _ (λ w i. i)) (λ b. bind-Keeps start_sync-Keeps (λ c. gets-Keeps _)))
  choice-Keeps new_profile o p = bind-Keeps (new_profile-Keeps p _) (λ a.
      bind-Keeps (modify-Keeps _ (λ w i. i)) (λ b. bind-Keeps start_sync-Keeps (λ c. pure-Keeps _)))

  pub handle_resolve_import-Keeps :
      (c : Choice) (o : ImportOptions) → Keeps (IsSound m) (handle_resolve_import {E = E} c o)
  unfolding handle_resolve_import
  handle_resolve_import-Keeps c o = bind-Keeps (gets-Keeps _) (λ pending.
      option-Keeps pending (pure-Keeps _) (λ p.
        bind-Keeps (set_pending_import-Keeps q none)
          (λ a. catching-Keeps (λ e. pure-Keeps _) (choice-Keeps c o p.profile_id))))

  compare-Keeps : (o p : String) → Keeps (IsSound m) (compare_with {E = E} o p)
  unfolding compare_with
  compare-Keeps o p = bind-Keeps (init_doc-Keeps none) (λ a. bind-Keeps (load_id_map-Keeps p) (λ b.
      bind-Keeps (sync_from-Keeps q p 0 true false) (λ c. bind-Keeps import_diff-Keeps (λ d.
        bind-Keeps
          (when-Keeps _ (
            bind-Keeps (load_snapshot-Keeps o)
              (λ s. bind-Keeps (load_id_map-Keeps o) (λ e. restore_doc-Keeps s))))
          (λ f. pure-Keeps _)))))

  pub handle_recompute-Keeps :
      (p : String) → Keeps (IsSound m) (handle_recompute_import_diff {E = E} p)
  unfolding handle_recompute_import_diff
  handle_recompute-Keeps p = bind-Keeps (gets-Keeps _) (λ pending.
      bind-Keeps (gets-Keeps _) (λ found. option-Keeps pending (pure-Keeps _) (λ o.
        if-Keeps found
          (catching-Keeps (λ e. pure-Keeps _)
            (bind-Keeps (compare-Keeps _ p)
              (λ d. bind-Keeps (set_pending_import-Keeps q _) (λ a. pure-Keeps _))))
          (pure-Keeps _))))
