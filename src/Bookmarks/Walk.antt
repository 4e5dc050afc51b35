-- ===== src/Bookmarks/Walk.antt =====
-- The breadth-first walk over the browser's bookmark tree that `mergeLocalChangesIntoDoc`,
-- `computeOfflineChanges`, `computeLocalImportDiff` and `reconcile` of
-- extension/src/bookmarks/bridge.ts make: roots are entered and not listed, folders beside the
-- roots are skipped with all below them.
pub mod Visits
pub mod Parents
use vaultmarks.Shared.{
  ℕ, zero, suc, ◌+◌, String, Bool, true, false, Option, none, some, List, [], ◌∷◌, ◌++◌,
  if◌then◌else◌,
}
use mathlib.Core.Option
use vaultmarks.Bookmarks.Node.{Tree, Forest, Item, node, nil, cons, to_list}
use vaultmarks.Bookmarks.Roots.{Roots, is_any_root_id, is_virtual_root_id}

-- `node.parentId !== undefined && isVirtualRootId(node.parentId)`
unfoldable pub is_beside_roots : Roots → Item → Bool
is_beside_roots r i = elim i.parent_id [ none ↦ false | some p ↦ is_virtual_root_id r p ]

-- The visited nodes in order; `none` means that the fuel ran out.
unfoldable pub walk : Roots → ℕ → List Tree → Option (List Item)
unfolding is_beside_roots
walk r zero queue = none
walk r (suc fuel) [] = some []
walk r (suc fuel) (node i ts ∷ queue) =
    let enter = walk r fuel (queue ++ to_list ts) in
    let skip = walk r fuel queue in
    if is_any_root_id r i.id
    then enter
    else if is_beside_roots r i
    then skip
    else Option.map (◌∷◌ i) enter

-- Nodes of a tree: the rounds that a walk can take.
mutual
  size : Tree → ℕ
  size (node i ts) = suc (sizes ts)

  sizes : Forest → ℕ
  sizes nil = 0
  sizes (cons t ts) = size t + sizes ts

unfoldable pub queue_size : List Tree → ℕ
unfolding size sizes
queue_size [] = 0
queue_size (t ∷ ts) = size t + queue_size ts

-- The walk of a whole tree.
unfoldable pub managed : Roots → Tree → Option (List Item)
unfolding walk queue_size
managed r root = walk r (suc (queue_size (root ∷ []))) (root ∷ [])
