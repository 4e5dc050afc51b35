-- ===== src/Background/Sound/Syncs.antt =====
-- The sync helpers and the logout keep the worker sound.
use vaultmarks.Shared.{
  ℕ, String, Bool, true, false, not, Option, none, some, List, [], ◌∷◌, ◌==◌, ◌⊎◌, ◌≡◌, refl, arith,
  inl, inr,
}
use vaultmarks.Sync.Action.{Failure, pure, throw, modify, finally, ◌>>=◌}
use vaultmarks.Auth.Store.{Raw}
use vaultmarks.Background.Exclusive.{overlap, Flags, enter, leave}
use vaultmarks.Background.World.{Env, World, Job}
use vaultmarks.Background.Keeping.{
  Keeps, bind-Keeps, pure-Keeps, throw-Keeps, gets-Keeps, modify-Keeps, when-Keeps, if-Keeps,
  bind-Leads,
}
use vaultmarks.Background.Steps.{detach_bookmark_listeners}
use vaultmarks.Background.Sound.{
  Mode, HasFlags, IsSound, IsIn, in-IsQuiet, read-Keeps, set_database-Keeps, remotely-Keeps, weaken,
  active-Leads, persist_snapshot-Keeps, set_last_seq_id-Keeps, start_task-Keeps, reconcile-Keeps,
}
use vaultmarks.Sync.Pull.{Pulled, ok, err, RawDelta}
use vaultmarks.Sync.Queue.{QueuedDelta}
use vaultmarks.Sync.Http.{ApiError}
use vaultmarks.Background.Syncing.{
  stop_realtime_sync, pull_since, set_last_synced, run_sync, after_sync, end_sync, sync_from,
  connect_event_stream, start_sync, push_pending, push_queue, push_batch, apply_deltas,
  refresh_server_snapshot,
}
use vaultmarks.Background.SignOut.{clear_managed_bookmarks, sign_out, forget_account, log_out}

abbrev pub in_sync : Mode → Mode
in_sync m = record m { syncing = true }

enter-HasFlags :
    (m : Mode) (x : Bool) (f : Flags) (p : Bool)
    → m.syncing ≡ false
    → HasFlags m f p
    → ((enter x f).0 ≡ false) × HasFlags m (enter x f).1 p
      ⊎ ((enter x f).0 ≡ true) × HasFlags (in_sync m) (enter x f).1 p
unfolding enter
enter-HasFlags m x f p e h = ground (arith, e, h)

leave-HasFlags :
    (m : Mode) (comes : Bool) (f : Flags) (p : Bool)
    → m.syncing ≡ false
    → HasFlags (in_sync m) f p
    → HasFlags m (leave (overlap comes f)).1 p
unfolding leave overlap enter
leave-HasFlags m comes f p e h = ground (arith, e, h)

module _ {E : Env} {m : Mode} where
  pub stop-Keeps : Keeps (IsSound m) (stop_realtime_sync {E = E})
  unfolding stop_realtime_sync
  stop-Keeps = modify-Keeps _ (λ w i. (i.0, λ h. (refl, refl, (i.1 h).2)))

  pull_since-Keeps : (n : ℕ) (p : String) → Keeps (IsSound m) (pull_since {E = E} n p)
  unfolding pull_since
  pull_since-Keeps n p =
      bind-Keeps (read-Keeps _ _)
        (λ t. bind-Keeps (read-Keeps _ _) (λ k. bind-Keeps (gets-Keeps _) (λ r. go r)))
    where
      go :
          (r : Option (Pulled (List (RawDelta Raw))))
          → Keeps (IsSound m) (elim r as (λ x. Job E (List (RawDelta Raw))) [
            | none ↦ throw (Failure.api ApiError.request_failed)
            | some (err ApiError.bad_payload) ↦ throw Failure.wrong_key
            | some (err e) ↦ throw (Failure.api e)
            | some (ok deltas) ↦ pure deltas
          ])
      go none = throw-Keeps _
      go (some (ok ds)) = pure-Keeps _
      go (some (err ApiError.auth_expired)) = throw-Keeps _
      go (some (err ApiError.account_revoked)) = throw-Keeps _
      go (some (err ApiError.invalid_credentials)) = throw-Keeps _
      go (some (err ApiError.http_error)) = throw-Keeps _
      go (some (err ApiError.request_failed)) = throw-Keeps _
      go (some (err ApiError.bad_payload)) = throw-Keeps _

  set_last_synced-Keeps : Keeps (IsSound m) (set_last_synced {E = E})
  unfolding set_last_synced
  set_last_synced-Keeps = modify-Keeps _ (λ w i. i)

  apply_deltas-Keeps :
      (p : String) (x : Bool) (ds : List (RawDelta Raw))
      → Keeps (IsSound m) (apply_deltas {E = E} p x ds)
  unfolding apply_deltas
  apply_deltas-Keeps p x [] = set_last_synced-Keeps
  apply_deltas-Keeps p x (d ∷ ds) = bind-Keeps (modify-Keeps _ (λ w i. i)) (λ a.
      bind-Keeps (persist_snapshot-Keeps p) (λ b. bind-Keeps (set_last_seq_id-Keeps p _) (λ c.
        bind-Keeps (when-Keeps (not x) reconcile-Keeps)
          (λ r. bind-Keeps set_last_synced-Keeps (λ e. start_task-Keeps _)))))

  run_sync-Keeps : (p : String) (n : ℕ) (x : Bool) → Keeps (IsSound m) (run_sync {E = E} p n x)
  unfolding run_sync
  run_sync-Keeps p n x = bind-Keeps (pull_since-Keeps n p) (λ ds. apply_deltas-Keeps p x ds)

  push_batch-Keeps : (t p : String) → Keeps (IsSound m) (push_batch {E = E} t p)
  unfolding push_batch
  push_batch-Keeps t p = bind-Keeps (gets-Keeps _) (λ q.
      bind-Keeps (remotely-Keeps _)
        (λ l. when-Keeps _ (set_database-Keeps _ (λ w s i. i) (λ w i. i))))

  push_queue-Keeps : (q : List QueuedDelta) → Keeps (IsSound m) (push_queue {E = E} q)
  unfolding push_queue
  push_queue-Keeps [] = pure-Keeps _
  push_queue-Keeps (d ∷ ds) =
      bind-Keeps (read-Keeps _ _) (λ t. bind-Keeps (read-Keeps _ _) (λ p. push_batch-Keeps t p))

  pub push_pending-Keeps : Keeps (IsSound m) (push_pending {E = E})
  unfolding push_pending
  push_pending-Keeps =
      bind-Keeps (gets-Keeps _)
        (λ c. bind-Keeps (gets-Keeps _) (λ q. if-Keeps c (pure-Keeps _) (push_queue-Keeps q)))

  pub refresh-Keeps : (p : String) (n : ℕ) → Keeps (IsSound m) (refresh_server_snapshot {E = E} p n)
  unfolding refresh_server_snapshot
  refresh-Keeps p n = bind-Keeps (gets-Keeps _) (λ last. if-Keeps _ (pure-Keeps _) (
      bind-Keeps (read-Keeps _ _) (λ k. bind-Keeps (gets-Keeps _) (λ b.
        bind-Keeps (read-Keeps _ _) (λ t.
          bind-Keeps (remotely-Keeps _) (λ u. set_database-Keeps _ (λ w s i. i) (λ w i. i)))))))

  pub connect-Keeps : Keeps (IsSound m) (connect_event_stream {E = E})
  unfolding connect_event_stream
  connect-Keeps = bind-Keeps (gets-Keeps _) (λ c. if-Keeps c (pure-Keeps _) (
      bind-Leads weaken active-Leads (λ p. bind-Keeps (read-Keeps _ _) (λ t.
        if-Keeps (p == "") (pure-Keeps _)
          (modify-Keeps _ (λ v j. ((j.0.0, in-IsQuiet v.auth j.1), j.1)))))))

  connect-IsIn-Keeps : Keeps (IsIn m) (connect_event_stream {E = E})
  unfolding connect_event_stream
  connect-IsIn-Keeps = bind-Keeps (gets-Keeps _) (λ c. if-Keeps c (pure-Keeps _) (
      bind-Keeps (read-Keeps _ _) (λ p. bind-Keeps (read-Keeps _ _) (λ t.
        if-Keeps (p == "") (pure-Keeps _)
          (modify-Keeps _ (λ v j. ((j.0.0, in-IsQuiet v.auth j.1), j.1)))))))

  pub start_sync-Keeps : Keeps (IsSound m) (start_sync {E = E})
  unfolding start_sync
  start_sync-Keeps = bind-Keeps (gets-Keeps _) (λ c. if-Keeps c (pure-Keeps _) (
      bind-Leads weaken active-Leads (λ p. if-Keeps (p == "") (pure-Keeps _) (
        bind-Keeps connect-IsIn-Keeps (λ a.
          bind-Keeps (modify-Keeps _ (λ v j. j))
            (λ b. modify-Keeps _ (λ v j. ((j.0.0, in-IsQuiet v.auth j.1), j.1))))))))

  forget-Keeps : (c : Bool) → Keeps (IsSound m) (forget_account {E = E} c)
  unfolding forget_account clear_managed_bookmarks
  forget-Keeps c =
      bind-Keeps (set_database-Keeps _ (λ w s i. i) (λ w i. i)) (λ a.
        bind-Keeps (when-Keeps c (modify-Keeps _ (λ w i. i))) (λ b. modify-Keeps _ (λ w i. i)))

  -- Once the session is gone, what a worker without one must not have is gone before.
  pub signed_out-Keeps :
      (k : Unit {0} → Job E Unit)
      → Keeps (IsSound m) (k tt)
      → Keeps
          (IsSound m)
          (stop_realtime_sync >>= λ _. detach_bookmark_listeners >>= λ _. sign_out >>= k)
  unfolding ◌>>=◌ modify stop_realtime_sync detach_bookmark_listeners
  signed_out-Keeps k h = record { keeps = λ w i. h.keeps _ (i.0, λ e. (refl, refl, refl)) }

  pub log_out-Keeps : (c : Bool) → Keeps (IsSound m) (log_out {E = E} c)
  unfolding log_out
  log_out-Keeps c = signed_out-Keeps _ (forget-Keeps c)

module _ {E : Env} {m : Mode} where
  pub sync_from-Keeps :
      m.syncing ≡ false
      → (p : String) (n : ℕ) (x y : Bool) → Keeps (IsSound m) (sync_from {E = E} p n x y)
  unfolding sync_from pure finally end_sync after_sync
  sync_from-Keeps e p n x y = record {
    keeps = λ w i. elim (enter-HasFlags m y w.flags w.push_paused e i.0) [
      | inl (g, f) ↦ rw g (f, i.1)
      | inr (g, f) ↦
          let v : World E = record w { flags = (enter y w.flags).1 } in
          let j = (run_sync-Keeps {m = in_sync m} p n x).keeps v (f, i.1) in
          let after = (run_sync {E = E} p n x v).1 in
          rw g (leave-HasFlags m (E.overlaps after.remote) after.flags after.push_paused e j.0, j.1)
    ];
  }
