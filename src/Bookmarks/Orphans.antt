-- ===== src/Bookmarks/Orphans.antt =====
-- Step 0b of `reconcile` in extension/src/bookmarks/bridge.ts: entries whose parent is gone are
-- dropped, round by round, until none is left.
pub mod Closure
use vaultmarks.Shared.{
  ℕ, zero, suc, String, Bool, true, false, Option, none, some, List, [], ◌∷◌, ◌||◌, if◌then◌else◌,
  length, contains,
}
use vaultmarks.Shared.Dict.{Dict, has, delete}
use vaultmarks.Bookmarks.Node.{BookmarkNode}
use vaultmarks.Bookmarks.Mapping.{Mapping}
use vaultmarks.Bookmarks.Roots.{canonical_root_ids}

-- `effectiveDesired` and `foundOrphan`.
pub record State : Type 0 where
  pub effective : Dict BookmarkNode
  pub found_orphan : Bool

-- The three tests by which an entry is kept.
unfoldable pub anchored : Mapping → Dict BookmarkNode → String → Bool
anchored m effective pid =
    contains canonical_root_ids pid || (has effective pid || has m.loro_to_chrome pid)

-- One round of the inner loop, for the entry `loro_id`.
unfoldable pub drop_orphan : Mapping → State → String → BookmarkNode → State
unfolding anchored
drop_orphan m s loro_id n =
    if anchored m s.effective n.parent_id
    then s
    else record { effective = delete s.effective loro_id; found_orphan = true }

-- The inner loop over the entries that the round began with.
unfoldable pub drop_orphans : Mapping → State → List (String × BookmarkNode) → State
drop_orphans m s [] = s
drop_orphans m s ((loro_id, n) ∷ es) = drop_orphans m (drop_orphan m s loro_id n) es

-- The outer loop on fuel; `none` means that the fuel ran out.
unfoldable pub fixed_point : ℕ → Mapping → Dict BookmarkNode → Option (Dict BookmarkNode)
unfolding drop_orphan drop_orphans
fixed_point zero m effective = none
fixed_point (suc fuel) m effective =
    let s = drop_orphans m (record { effective = effective; found_orphan = false }) effective in
    let next = fixed_point fuel m s.effective in if s.found_orphan then next else some s.effective

-- A round for each entry, and one that finds nothing.
unfoldable pub effective_desired : Mapping → Dict BookmarkNode → Option (Dict BookmarkNode)
unfolding fixed_point
effective_desired m desired = fixed_point (suc (length desired)) m desired
