-- ===== src/Background/Steps.antt =====
-- The calls that the handlers of extension/src/background/index.ts make of the session, the
-- database and the bridge.
use vaultmarks.Shared.{
  ℕ, suc, String, Bool, true, false, if◌then◌else◌, Option, none, some, List, [], ◌∷◌, ◌++◌,
  or_else,
}
use vaultmarks.Shared.Dict.{get, put}
use vaultmarks.Bookmarks.Node.{Item}
use vaultmarks.Bookmarks.Mapping.{load_mapping, save_mapping, has_established_mapping}
use vaultmarks.Bookmarks.Offline.{Changes, merge_local_changes_into_doc, compute_offline_changes}
use vaultmarks.Bookmarks.Import.{
  ImportDiff, compute_local_import_diff, bootstrap_from_chrome, merge_import_into_doc,
}
use vaultmarks.Bookmarks.Reconcile.{visits, reconcile}
use vaultmarks.Sync.Queue.{enqueue}
use vaultmarks.Sync.Action.{Failure, done, Action, pure, throw, gets, or_throw, modify, ◌>>=◌, ◌>>◌}
use vaultmarks.Auth.Store.{Raw, Auth}
use vaultmarks.Auth.Session.{get_jwt, get_encryption_key, get_active_profile_id}
use vaultmarks.Background.World.{Env, Database, World, Job, Task}

-- A rejected transaction of IndexedDB.
abbrev pub write_failed : Failure
write_failed = Failure.message "transaction failed"

abbrev pub not_logged_in : Failure
not_logged_in = Failure.message "Not logged in"

module _ {E : Env} where
  -- A request to the server.
  abbrev pub remotely : {A : Type 0} → Action E.Remote A → Job E A
  remotely m w = let (r, s) = m w.remote in (r, record w { remote = s })

  abbrev pub jwt : Job E String
  jwt w = or_throw (get_jwt w.auth) not_logged_in w

  abbrev pub active_profile_id : Job E String
  active_profile_id w = or_throw (get_active_profile_id w.auth) not_logged_in w

  abbrev pub encryption_key : Job E E.Key
  encryption_key w = or_throw (get_encryption_key w.auth) (Failure.message "Session is locked") w

  abbrev pub set_auth : Auth E.Key → Job E Unit
  set_auth a = modify (λ w. record w { auth = a })

  -- A transaction that writes: it changes the database, or throws and changes nothing.
  abbrev pub set_database : (Database → Database) → Job E Unit
  set_database f = do
    ok ← remotely (λ s. let (ok, s') = E.commits s in (done ok, s'))
    if ok then modify (λ w. record w { database = f w.database }) else throw write_failed

  abbrev pub start_task : Task → Job E Unit
  start_task t = modify (λ w. record w { tasks = w.tasks ++ t ∷ [] })

  -- `initDoc` with a snapshot or without.
  unfoldable pub init_doc : Option Raw → Job E Unit
  init_doc snapshot = modify (λ w. record w {
    bridge = record w.bridge {
      doc = elim snapshot [
        | none ↦ E.loro.empty_doc
        | some bytes ↦ E.import_update bytes E.loro.empty_doc
      ];
    };
  })

  unfoldable pub reset_version_cursor : Job E Unit
  reset_version_cursor = modify (λ w. record w { cursor = some (E.current_version w.bridge.doc) })

  -- `loadMapping`
  unfoldable pub load_id_map : String → Job E Unit
  load_id_map profile = modify (λ w. record w {
    bridge = record w.bridge {
      mapping = load_mapping (or_else (get w.database.id_maps profile) []);
    };
  })

  -- `saveMapping`
  unfoldable pub save_id_map : Job E Unit
  save_id_map = do
    profile ← active_profile_id
    rows ← gets (λ w. save_mapping w.bridge.mapping)
    set_database (λ d. record d { id_maps = put d.id_maps profile rows })

  unfoldable pub load_snapshot : String → Job E (Option Raw)
  load_snapshot profile = gets (λ w. get w.database.snapshots profile)

  unfoldable pub persist_snapshot : String → Job E Unit
  persist_snapshot profile = do
    bytes ← gets (λ w. E.export_snapshot w.bridge.doc)
    set_database (λ d. record d { snapshots = put d.snapshots profile bytes })

  unfoldable pub last_seq_id : String → Job E ℕ
  last_seq_id profile = gets (λ w. or_else (get w.database.last_seqs profile) 0)

  unfoldable pub set_last_seq_id : String → ℕ → Job E Unit
  set_last_seq_id profile n = set_database (λ d. record d { last_seqs = put d.last_seqs profile n })

  abbrev pub items : World E → List Item
  items w = visits w.roots (E.browser.get_tree w.browser)

  -- `enqueueDelta`
  unfoldable pub enqueue_delta : Raw → Job E Unit
  enqueue_delta bytes = do
    key ← encryption_key
    profile ← active_profile_id
    delta ← gets (λ w. record {
      id = E.uuid w.bridge.uuids;
      profile_id = profile;
      encrypted_delta = E.encrypt key bytes;
      timestamp = E.now w.remote;
    })
    modify (λ w. record w { bridge = record w.bridge { uuids = suc w.bridge.uuids } })
    set_database (λ d. record d { queue = enqueue delta d.queue })

  unfoldable pub export_and_enqueue_local_changes : Job E Unit
  unfolding enqueue_delta
  export_and_enqueue_local_changes = do
    delta ← gets (λ w. E.export_from w.cursor w.bridge.doc)
    modify (λ w. record w { cursor = some (E.current_version w.bridge.doc) })
    enqueue_delta delta

  -- `mergeLocalChangesIntoDoc`, which ends with `saveMapping`.
  unfoldable pub merge_local_changes : Job E Unit
  unfolding save_id_map
  merge_local_changes = do
    modify (λ w. record w {
      bridge = merge_local_changes_into_doc E.loro E.uuid w.roots (items w) w.bridge;
    })
    save_id_map

  unfoldable pub offline_changes : Job E Changes
  offline_changes = gets (λ w.
      compute_offline_changes w.roots w.bridge.mapping (items w)
        (E.loro.get_all_bookmarks w.bridge.doc))

  unfoldable pub import_diff : Job E ImportDiff
  import_diff =
      gets (λ w. compute_local_import_diff (items w) (E.loro.get_all_bookmarks w.bridge.doc))

  -- `mergeImportIntoDoc`, which ends with `saveMapping`.
  unfoldable pub merge_import : Bool → Job E Unit
  unfolding save_id_map
  merge_import exclude_duplicates = do
    modify (λ w. record w {
      bridge = merge_import_into_doc E.loro E.uuid w.roots exclude_duplicates (items w) w.bridge;
    })
    save_id_map

  -- `bootstrapFromChrome`
  unfoldable pub bootstrap : String → Job E ℕ
  bootstrap profile = do
    (b, count) ← gets (λ w. bootstrap_from_chrome E.loro E.uuid w.roots (items w) w.bridge)
    modify (λ w. record w { bridge = b })
    set_database (λ d. record d { id_maps = put d.id_maps profile b.saved })
    modify (λ w. record w { cursor = some (E.current_version b.doc) })
    pure count

  -- `reconcileBookmarks`, whose last call is `saveMapping`.
  unfoldable pub reconcile_bookmarks : Job E Unit
  unfolding save_id_map
  reconcile_bookmarks = do
    modify (λ w.
        let s =
          reconcile E.browser w.roots E.key_order (E.loro.get_all_bookmarks w.bridge.doc)
            (record { browser = w.browser; mapping = w.bridge.mapping; saved = w.bridge.saved }) in
        record w {
          browser = s.browser;
          bridge = record w.bridge { mapping = s.mapping; saved = s.saved };
        })
    save_id_map

  unfoldable pub detach_bookmark_listeners : Job E Unit
  detach_bookmark_listeners = modify (λ w. record w { listening = false; cursor = none })

  -- The listeners are first detached, which also drops the version.
  unfoldable pub attach_bookmark_listeners : Job E Unit
  attach_bookmark_listeners = modify (λ w. record w { listening = true; cursor = none })

  abbrev pub is_established : Job E Bool
  is_established = gets (λ w. has_established_mapping w.bridge.mapping)
