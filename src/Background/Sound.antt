-- ===== src/Background/Sound.antt =====
-- The flags of the worker, and what a worker without a session does not have.
pub mod Syncs
pub mod Starts
pub mod Messages
use vaultmarks.Shared.{
  ℕ, String, Bool, true, false, not, Option, none, some, List, [], ◌∷◌, ◌==◌, ◌&&◌, ◌||◌,
  if◌then◌else◌, or_else, is_some, ltb, ◌≡◌, refl, arith, inl, inr, Bool-cases, Option-cases,
}
use vaultmarks.Shared.Dict.{Dict, get}
use vaultmarks.Sync.Queue.{QueuedDelta}
use vaultmarks.Sync.Requests.{ServerSnapshot}
use vaultmarks.Sync.Action.{
  Failure, Result, done, failed, Action, pure, throw, gets, or_throw, modify, when, catching,
  finally, ◌>>=◌, ◌>>◌,
}
use vaultmarks.Auth.Store.{Raw, Auth}
use vaultmarks.Auth.Session.{is_logged_in, get_active_profile_id, get_jwt, get_encryption_key}
use vaultmarks.Background.Exclusive.{Flags, enter, leave}
use vaultmarks.Background.World.{Env, World, Database, Job, Stream, Task}
use vaultmarks.Background.Keeping.{
  Keeps, Leads, bind-Keeps, pure-Keeps, throw-Keeps, gets-Keeps, or_throw-Keeps, catching-Keeps,
  modify-Keeps, when-Keeps, if-Keeps, bind-Leads, then-Leads, keep-Leads, Leads-Keeps,
}
use vaultmarks.Background.Steps.{
  set_auth, set_database, remotely, jwt, active_profile_id, encryption_key, init_doc,
  reset_version_cursor, load_id_map, save_id_map, load_snapshot, persist_snapshot, last_seq_id,
  set_last_seq_id, enqueue_delta, export_and_enqueue_local_changes, merge_local_changes,
  import_diff, offline_changes, bootstrap, merge_import, start_task, reconcile_bookmarks,
  attach_bookmark_listeners, detach_bookmark_listeners, is_established,
}

-- Which handler's work is going on.
pub record Mode : Type 0 where
  pub syncing : Bool
  pub switching : Bool
  pub paused : Bool

abbrev pub idle : Mode
idle = record { syncing = false; switching = false; paused = false }

abbrev pub HasFlags : Mode → Flags → Bool → Type 0
HasFlags m f push_paused =
    (f.sync_in_progress ≡ m.syncing)
    × (f.switch_in_progress ≡ m.switching)
    × (f.sync_paused ≡ m.paused)
    × (push_paused ≡ m.paused)
    × (f.resync_requested ≡ false)

-- Without a session there is no stream, no alarm that polls and no listener.
abbrev pub IsQuiet : Bool → Option Stream → Bool → Bool → Type 0
IsQuiet logged_in stream poll_alarm listening =
    logged_in ≡ false → (stream ≡ none) × (poll_alarm ≡ false) × (listening ≡ false)

module _ {K : Type 0} where
  pub in-IsQuiet :
      (a : Auth K) {st : Option Stream} {p l : Bool}
      → is_logged_in a ≡ true
      → IsQuiet (is_logged_in a) st p l
  in-IsQuiet a h g = absurd (ground (arith, h, g))

  jwt_in : (a : Auth K) {s : String} → get_jwt a ≡ some s → is_logged_in a ≡ true
  unfolding get_jwt is_logged_in
  jwt_in a {s} h = ground (arith, h)

  active_in : (a : Auth K) {s : String} → get_active_profile_id a ≡ some s → is_logged_in a ≡ true
  unfolding get_active_profile_id is_logged_in
  active_in a {s} h = ground (arith, h)

  key_in : (a : Auth K) {k : K} → get_encryption_key a ≡ some k → is_logged_in a ≡ true
  unfolding get_encryption_key is_logged_in
  key_in a {k} h = ground (arith, h)

module _ {E : Env} where
  abbrev pub IsSound : Mode → World E → Type 0
  IsSound m w =
      HasFlags m w.flags w.push_paused
      × IsQuiet (is_logged_in w.auth) w.stream w.poll_alarm w.listening

  abbrev pub IsIn : Mode → World E → Type 0
  IsIn m w = IsSound m w × (is_logged_in w.auth ≡ true)

  pub read-Keeps :
      {A : Type 0} {I : World E → Type 0} (o : World E → Option A) (e : Failure)
      → Keeps I (λ w. or_throw (o w) e w)
  read-Keeps {I = I} o e = record { keeps = λ w i. (or_throw-Keeps {I = I} (o w) e).keeps w i }

  -- A write that may fail, for what does not speak of the outside.
  pub set_database-Keeps :
      {I : World E → Type 0} (f : Database → Database)
      → ((w : World E) (s : E.Remote) → I w → I (record w { remote = s }))
      → ((w : World E) → I w → I (record w { database = f w.database }))
      → Keeps I (set_database {E = E} f)
  set_database-Keeps f h k =
      bind-Keeps (record { keeps = λ w i. h w _ i })
        (λ ok. if-Keeps ok (modify-Keeps _ k) (throw-Keeps _))

  pub remotely-Keeps :
      {A : Type 0} {m : Mode} (f : Action E.Remote A) → Keeps (IsSound m) (remotely f)
  remotely-Keeps f = record { keeps = λ w i. i }

  module _ {m : Mode} where
    pub weaken : (w : World E) → IsIn m w → IsSound m w
    weaken w i = i.0

    -- A read of the session that returns shows that there is one.
    read-Leads :
        {A : Type 0} (o : World E → Option A) (e : Failure)
        → ((w : World E) (a : A) → o w ≡ some a → is_logged_in w.auth ≡ true)
        → Leads (IsSound m) (IsIn m) (λ w. or_throw (o w) e w)
    unfolding or_throw throw pure
    read-Leads o e h = record {
      leads = λ w i. elim (Option-cases (o w)) [ inl f ↦ rw f i | inr (a, f) ↦ rw f (i, h w a f) ];
    }

    pub jwt-Leads : Leads (IsSound m) (IsIn m) (jwt {E = E})
    jwt-Leads = read-Leads _ _ (λ w a. jwt_in w.auth)

    pub active-Leads : Leads (IsSound m) (IsIn m) (active_profile_id {E = E})
    active-Leads = read-Leads _ _ (λ w a. active_in w.auth)

    pub key-Leads : Leads (IsSound m) (IsIn m) (encryption_key {E = E})
    key-Leads = read-Leads _ _ (λ w a. key_in w.auth)

    -- An update of the session that returns one.
    pub update-Keeps :
        {A : Type 0} (f : Auth E.Key → Option (Auth E.Key)) (e : Failure) (k : Unit {0} → Job E A)
        → ((a b : Auth E.Key) → f a ≡ some b → is_logged_in b ≡ true)
        → Keeps (IsSound m) (k tt)
        → Keeps (IsSound m) (gets (λ w. f w.auth) >>= λ o. or_throw o e >>= λ b. set_auth b >>= k)
    unfolding ◌>>=◌ gets or_throw throw pure modify
    update-Keeps f e k h r = record {
      keeps = λ w i. elim (Option-cases (f w.auth)) [
        | inl g ↦ rw g i
        | inr (b, g) ↦ rw g (r.keeps (record w { auth = b }) (i.0, in-IsQuiet b (h w.auth b g)))
      ];
    }

    pub update_end-Keeps :
        (f : Auth E.Key → Option (Auth E.Key)) (e : Failure)
        → ((a b : Auth E.Key) → f a ≡ some b → is_logged_in b ≡ true)
        → Keeps (IsSound m) (gets (λ w. f w.auth) >>= λ o. or_throw o e >>= set_auth)
    unfolding ◌>>=◌ gets or_throw throw pure modify
    update_end-Keeps f e h = record {
      keeps = λ w i. elim (Option-cases (f w.auth)) [
        | inl g ↦ rw g i
        | inr (b, g) ↦ rw g (i.0, in-IsQuiet b (h w.auth b g))
      ];
    }

    pub init_doc-Keeps : (s : Option Raw) → Keeps (IsSound m) (init_doc {E = E} s)
    unfolding init_doc
    init_doc-Keeps s = modify-Keeps _ (λ w i. i)

    pub reset-Keeps : Keeps (IsSound m) (reset_version_cursor {E = E})
    unfolding reset_version_cursor
    reset-Keeps = modify-Keeps _ (λ w i. i)

    pub load_id_map-Keeps : (p : String) → Keeps (IsSound m) (load_id_map {E = E} p)
    unfolding load_id_map
    load_id_map-Keeps p = modify-Keeps _ (λ w i. i)

    save_id_map-Leads : Leads (IsSound m) (IsIn m) (save_id_map {E = E})
    unfolding save_id_map
    save_id_map-Leads =
        keep-Leads weaken active-Leads
          (λ p. bind-Keeps (gets-Keeps _) (λ rows. set_database-Keeps _ (λ w s i. i) (λ w i. i)))

    save_id_map-Keeps : Keeps (IsSound m) (save_id_map {E = E})
    save_id_map-Keeps = Leads-Keeps weaken save_id_map-Leads

    pub load_snapshot-Keeps : (p : String) → Keeps (IsSound m) (load_snapshot {E = E} p)
    unfolding load_snapshot
    load_snapshot-Keeps p = gets-Keeps _

    pub persist_snapshot-Keeps : (p : String) → Keeps (IsSound m) (persist_snapshot {E = E} p)
    unfolding persist_snapshot
    persist_snapshot-Keeps p =
        bind-Keeps (gets-Keeps _) (λ b. set_database-Keeps _ (λ w s i. i) (λ w i. i))

    pub last_seq_id-Keeps : (p : String) → Keeps (IsSound m) (last_seq_id {E = E} p)
    unfolding last_seq_id
    last_seq_id-Keeps p = gets-Keeps _

    pub set_last_seq_id-Keeps :
        (p : String) (n : ℕ) → Keeps (IsSound m) (set_last_seq_id {E = E} p n)
    unfolding set_last_seq_id
    set_last_seq_id-Keeps p n = set_database-Keeps _ (λ w s i. i) (λ w i. i)

    pub start_task-Keeps : (t : Task) → Keeps (IsSound m) (start_task {E = E} t)
    start_task-Keeps t = modify-Keeps _ (λ w i. i)

    pub enqueue_delta-Keeps : (bytes : Raw) → Keeps (IsSound m) (enqueue_delta {E = E} bytes)
    unfolding enqueue_delta
    enqueue_delta-Keeps bytes = bind-Keeps (read-Keeps _ _) (λ k. bind-Keeps (read-Keeps _ _) (λ p.
        bind-Keeps (gets-Keeps _) (λ d.
          bind-Keeps (modify-Keeps _ (λ w i. i))
            (λ u. set_database-Keeps _ (λ w s i. i) (λ w i. i)))))

    pub export-Keeps : Keeps (IsSound m) (export_and_enqueue_local_changes {E = E})
    unfolding export_and_enqueue_local_changes
    export-Keeps =
        bind-Keeps (gets-Keeps _)
          (λ d. bind-Keeps (modify-Keeps _ (λ w i. i)) (λ u. enqueue_delta-Keeps d))

    pub merge_local_changes-Keeps : Keeps (IsSound m) (merge_local_changes {E = E})
    unfolding merge_local_changes
    merge_local_changes-Keeps = bind-Keeps (modify-Keeps _ (λ w i. i)) (λ u. save_id_map-Keeps)

    pub import_diff-Keeps : Keeps (IsSound m) (import_diff {E = E})
    unfolding import_diff
    import_diff-Keeps = gets-Keeps _

    pub offline_changes-Keeps : Keeps (IsSound m) (offline_changes {E = E})
    unfolding offline_changes
    offline_changes-Keeps = gets-Keeps _

    pub merge_import-Keeps : (x : Bool) → Keeps (IsSound m) (merge_import {E = E} x)
    unfolding merge_import
    merge_import-Keeps x = bind-Keeps (modify-Keeps _ (λ w i. i)) (λ u. save_id_map-Keeps)

    pub bootstrap-Keeps : (p : String) → Keeps (IsSound m) (bootstrap {E = E} p)
    unfolding bootstrap
    bootstrap-Keeps p = bind-Keeps (gets-Keeps _) (λ r. bind-Keeps (modify-Keeps _ (λ w i. i)) (λ a.
        bind-Keeps (set_database-Keeps _ (λ w s i. i) (λ w i. i))
          (λ b. bind-Keeps (modify-Keeps _ (λ w i. i)) (λ c. pure-Keeps _))))

    reconcile-Leads : Leads (IsSound m) (IsIn m) (reconcile_bookmarks {E = E})
    unfolding reconcile_bookmarks
    reconcile-Leads = then-Leads (modify-Keeps _ (λ w i. i)) (λ u. save_id_map-Leads)

    pub reconcile-Keeps : Keeps (IsSound m) (reconcile_bookmarks {E = E})
    reconcile-Keeps = Leads-Keeps weaken reconcile-Leads

    -- The listeners are only attached after a reconcile, which throws where nobody is logged in.
    pub reconcile_attach-Keeps :
        {A : Type 0} (k : Unit {0} → Job E A)
        → Keeps (IsIn m) (k tt)
        → Keeps (IsSound m) (reconcile_bookmarks >>= λ _. attach_bookmark_listeners >>= k)
    unfolding attach_bookmark_listeners
    reconcile_attach-Keeps k h =
        bind-Leads weaken reconcile-Leads
          (λ u. bind-Keeps (modify-Keeps _ (λ w i. ((i.0.0, in-IsQuiet w.auth i.1), i.1))) (λ u. h))

    pub reconcile_attach_end-Keeps :
        Keeps (IsSound m) (reconcile_bookmarks {E = E} >>= λ _. attach_bookmark_listeners)
    unfolding attach_bookmark_listeners
    reconcile_attach_end-Keeps =
        bind-Leads weaken reconcile-Leads
          (λ u. modify-Keeps _ (λ w i. ((i.0.0, in-IsQuiet w.auth i.1), i.1)))

    pub detach-Keeps : Keeps (IsSound m) (detach_bookmark_listeners {E = E})
    unfolding detach_bookmark_listeners
    detach-Keeps = modify-Keeps _ (λ w i. (i.0, λ h. ((i.1 h).0, (i.1 h).1, refl)))
