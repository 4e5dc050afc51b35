-- ===== src/Background/Sound/Starts.antt =====
-- `initializeDocs` keeps the worker sound.
use vaultmarks.Shared.{ℕ, String, Bool, false, Option, none, some, nat_beq, length, ◌≡◌}
use vaultmarks.Sync.Action.{◌>>◌}
use vaultmarks.Auth.Store.{Raw}
use vaultmarks.Background.World.{Env}
use vaultmarks.Background.Keeping.{
  Keeps, bind-Keeps, pure-Keeps, gets-Keeps, or_throw-Keeps, catching-Keeps, when-Keeps, if-Keeps,
  option-Keeps,
}
use vaultmarks.Background.Steps.{persist_snapshot}
use vaultmarks.Background.Sound.{
  Mode, IsSound, read-Keeps, remotely-Keeps, init_doc-Keeps, reset-Keeps, load_id_map-Keeps,
  load_snapshot-Keeps, persist_snapshot-Keeps, last_seq_id-Keeps, set_last_seq_id-Keeps,
  start_task-Keeps, enqueue_delta-Keeps, export-Keeps, merge_local_changes-Keeps, import_diff-Keeps,
  bootstrap-Keeps, reconcile_attach-Keeps,
}
use vaultmarks.Sync.Requests.{ServerSnapshot}
use vaultmarks.Background.Initialize.{
  finish, find_conflict, initialize_from_local, fetch_server_snapshot, load_from_server,
  seed_profile, offer_snapshot, initialize_from_server, initialize_docs,
}
use vaultmarks.Background.Sound.Syncs.{sync_from-Keeps}

module _ {E : Env} {m : Mode} (q : m.syncing ≡ false) where
  finish-Keeps : Keeps (IsSound m) (finish {E = E})
  unfolding finish
  finish-Keeps = reconcile_attach-Keeps _ (pure-Keeps _)

  find_conflict-Keeps : Keeps (IsSound m) (find_conflict {E = E})
  unfolding find_conflict
  find_conflict-Keeps = bind-Keeps import_diff-Keeps (λ d. pure-Keeps _)

  from_local-Keeps :
      (p : String) (bytes : Raw) (x y : Bool)
      → Keeps (IsSound m) (initialize_from_local {E = E} p bytes x y)
  unfolding initialize_from_local
  from_local-Keeps p bytes x y = bind-Keeps (init_doc-Keeps _) (λ a. bind-Keeps reset-Keeps (λ b.
      bind-Keeps (gets-Keeps _) (λ c.
        bind-Keeps (when-Keeps _ (bind-Keeps merge_local_changes-Keeps (λ d. export-Keeps))) (λ e.
          bind-Keeps (last_seq_id-Keeps p) (λ n. bind-Keeps (sync_from-Keeps q p n y false) (λ f.
            bind-Keeps (if-Keeps y find_conflict-Keeps (pure-Keeps _))
              (λ g. option-Keeps g finish-Keeps (λ diff. pure-Keeps _))))))))

  fetch-Keeps : (p : String) → Keeps (IsSound m) (fetch_server_snapshot {E = E} p)
  unfolding fetch_server_snapshot
  fetch-Keeps p =
      catching-Keeps (λ e. pure-Keeps _) (bind-Keeps (read-Keeps _ _) (λ t. remotely-Keeps _))

  load-Keeps :
      (p : String) (s : Option ServerSnapshot) (y : Bool)
      → Keeps (IsSound m) (load_from_server {E = E} p s y)
  unfolding load_from_server
  load-Keeps p none y = bind-Keeps (init_doc-Keeps none) (λ a. sync_from-Keeps q p 0 y false)
  load-Keeps p (some s) y = bind-Keeps (read-Keeps _ _) (λ k.
      bind-Keeps (or_throw-Keeps _ _) (λ bytes. bind-Keeps (init_doc-Keeps _) (λ a.
        bind-Keeps reset-Keeps
          (λ b. bind-Keeps (set_last_seq_id-Keeps p _) (λ c. sync_from-Keeps q p _ y false)))))

  seed-Keeps : (p : String) → Keeps (IsSound m) (seed_profile {E = E} p)
  unfolding seed_profile
  seed-Keeps p = bind-Keeps (bootstrap-Keeps p) (λ n. bind-Keeps (gets-Keeps _) (λ bytes.
      bind-Keeps (enqueue_delta-Keeps bytes) (λ a.
        bind-Keeps (persist_snapshot-Keeps p) (λ b. reconcile_attach-Keeps _ (pure-Keeps _)))))

  offer-Keeps :
      (p : String) (s : Option ServerSnapshot) (n : ℕ)
      → Keeps (IsSound m) (offer_snapshot {E = E} p s n)
  unfolding offer_snapshot
  offer-Keeps p s n =
      if-Keeps _
        (bind-Keeps (read-Keeps _ _) (λ k. bind-Keeps (gets-Keeps _) (λ b. start_task-Keeps _)))
        (pure-Keeps _)

  persist_finish-Keeps :
      (p : String) (s : Option ServerSnapshot) (n : ℕ)
      → Keeps (IsSound m) (persist_snapshot {E = E} p >> (offer_snapshot p s n >> finish))
  persist_finish-Keeps p s n =
      bind-Keeps (persist_snapshot-Keeps p)
        (λ a. bind-Keeps (offer-Keeps p s n) (λ b. finish-Keeps))

  from_server-Keeps :
      (p : String) (y : Bool) → Keeps (IsSound m) (initialize_from_server {E = E} p y)
  unfolding initialize_from_server
  from_server-Keeps p y = bind-Keeps (read-Keeps _ _) (λ k. bind-Keeps (fetch-Keeps p) (λ s.
      bind-Keeps (load-Keeps p s y) (λ a. bind-Keeps (last_seq_id-Keeps p) (λ n.
        bind-Keeps (gets-Keeps _) (λ ps.
          if-Keeps (nat_beq n 0)
            (if-Keeps (nat_beq (length ps) 1) (seed-Keeps p) (persist_finish-Keeps p s n))
            (bind-Keeps (if-Keeps y find_conflict-Keeps (pure-Keeps _)) (λ g.
              option-Keeps g (persist_finish-Keeps p s n)
                (λ diff. bind-Keeps (persist_snapshot-Keeps p) (λ b. pure-Keeps _)))))))))

  pub initialize_docs-Keeps :
      (p : String) (x y : Bool) → Keeps (IsSound m) (initialize_docs {E = E} p x y)
  unfolding initialize_docs
  initialize_docs-Keeps p x y = bind-Keeps (load_id_map-Keeps p) (λ a.
      bind-Keeps (load_snapshot-Keeps p)
        (λ s. option-Keeps s (from_server-Keeps p y) (λ bytes. from_local-Keeps p bytes x y)))
