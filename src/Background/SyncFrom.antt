-- ===== src/Background/SyncFrom.antt =====
-- `_syncFromInner` of extension/src/background/index.ts as the sequence of its writes, between any
-- two of which the service worker can be stopped. The reconcile and the upload of a snapshot, which
-- follow them, are not part of it.
pub mod Durable
use vaultmarks.Shared.{ℕ, zero, suc, String, Option, none, some, List, [], ◌∷◌, ◌++◌, or_else}
use vaultmarks.Shared.Dict.{Dict, get, put}
use vaultmarks.Sync.Http.{ApiError}
use vaultmarks.Sync.Pull.{RawDelta, Pulled, ok, err, last_seq}

-- The document in memory, and the database's "snapshot-…" and "lastSeqId-…" entries by profile.
pub record Worker (D : Type 0) : Type 0 where
  pub doc : D
  pub snapshots : Dict D
  pub last_seqs : Dict ℕ

-- The writes of a sync.
pub data Write (P : Type 0) : Type 0 where
  update_imported : P → Write P
  snapshot_saved : Write P
  seq_set : ℕ → Write P

unfoldable pub imports : {P : Type 0} → List (RawDelta P) → List (Write P)
imports [] = []
imports ((seq, p) ∷ ds) = update_imported p ∷ imports ds

-- All deltas are applied, then the snapshot is saved, then the sequence id: none of it when there
-- is no delta.
unfoldable pub writes : {P : Type 0} → List (RawDelta P) → List (Write P)
unfolding imports
writes [] = []
writes (d ∷ ds) = imports (d ∷ ds) ++ snapshot_saved ∷ seq_set (last_seq 0 (d ∷ ds)) ∷ []

-- `import_update` is the library's.
module _ {D P : Type 0} (import_update : P → D → D) (profile : String) where
  unfoldable pub perform : Worker D → Write P → Worker D
  perform w (update_imported p) = record w { doc = import_update p w.doc }
  perform w snapshot_saved = record w { snapshots = put w.snapshots profile w.doc }
  perform w (seq_set n) = record w { last_seqs = put w.last_seqs profile n }

  unfoldable pub perform_all : Worker D → List (Write P) → Worker D
  perform_all w [] = w
  perform_all w (x ∷ xs) = perform_all (perform w x) xs

  -- What a `pullSince` that ended makes of the worker: an error leaves it as it was.
  unfoldable pub sync_from_inner : Worker D → Pulled (List (RawDelta P)) → Worker D
  sync_from_inner w (ok deltas) = perform_all w (writes deltas)
  sync_from_inner w (err e) = w

-- `initializeDocs` after a start: the document is the stored snapshot, or a new one.
unfoldable pub restarted : {D : Type 0} → String → D → Worker D → Worker D
restarted profile empty_doc w = record w { doc = or_else (get w.snapshots profile) empty_doc }

-- The sequence id that `initializeDocs` pulls from, where the server has no snapshot: the stored one
-- if there is a stored document, and 0 if there is none.
unfoldable pub resume_seq : {D : Type 0} → String → Worker D → ℕ
resume_seq profile w = elim (get w.snapshots profile) [
  | none ↦ 0
  | some d ↦ or_else (get w.last_seqs profile) 0
]

-- The writes that happened when the worker is stopped after `k` of them.
unfoldable pub stopped_after : {P : Type 0} → ℕ → List (Write P) → List (Write P)
stopped_after zero xs = []
stopped_after (suc k) [] = []
stopped_after (suc k) (x ∷ xs) = x ∷ stopped_after k xs
