-- ===== src/Sync/Queue.antt =====
-- The queue of encrypted deltas: extension/src/sync/delta-queue.ts over the object store
-- "deltaQueue" of extension/src/storage/db.ts.
pub mod Front
use Prim.Native.String.{compare}
use Prim.Native.Nat.{Ordering}
use vaultmarks.Shared.{
  ℕ, zero, suc, String, Bool, true, false, List, [], ◌∷◌, ◌||◌, ◌&&◌, if◌then◌else◌, nat_beq, ltb,
  contains,
}

pub record QueuedDelta : Type 0 where
  pub id : String
  pub profile_id : String
  pub encrypted_delta : String
  pub timestamp : ℕ

-- The index "by_timestamp" orders by the time, and equal times by the key.
unfoldable pub comes_before : QueuedDelta → QueuedDelta → Bool
comes_before a b =
    ltb a.timestamp b.timestamp
    || (nat_beq a.timestamp b.timestamp
        && (elim (compare a.id b.id) [ Ordering.gt ↦ false | _ ↦ true ]))

-- `put`: the store is kept in the order of its index, and a key stands once.
unfoldable pub insert_delta : QueuedDelta → List QueuedDelta → List QueuedDelta
unfolding comes_before
insert_delta d [] = d ∷ []
insert_delta d (e ∷ es) =
    let rest = insert_delta d es in if comes_before d e then d ∷ e ∷ es else e ∷ rest

unfoldable pub dequeue : List String → List QueuedDelta → List QueuedDelta
dequeue ids [] = []
dequeue ids (d ∷ ds) = let rest = dequeue ids ds in if contains ids d.id then rest else d ∷ rest

unfoldable pub enqueue : QueuedDelta → List QueuedDelta → List QueuedDelta
unfolding insert_delta dequeue
enqueue d q = insert_delta d (dequeue (d.id ∷ []) q)

-- `getAll(undefined, limit)` on the index.
unfoldable pub peek : ℕ → List QueuedDelta → List QueuedDelta
peek zero q = []
peek (suc limit) [] = []
peek (suc limit) (d ∷ ds) = d ∷ peek limit ds
