-- ===== src/Bookmarks/TopoSort.antt =====
-- `topoSort` of extension/src/bookmarks/bridge.ts: parents before children.
pub mod Total
pub mod Order
use vaultmarks.Shared.{
  ℕ, zero, suc, ◌+◌, String, Bool, true, false, Option, none, some, List, [], ◌∷◌, ◌++◌,
  if◌then◌else◌, leb, length, contains, add, nat_beq,
}
use vaultmarks.Shared.Dict.{Dict, delete, put_all}
use vaultmarks.Bookmarks.Node.{BookmarkNode}

abbrev pub Entry : Type 0
Entry = String × BookmarkNode

-- `[…].sort((a, b) => a[1].index - b[1].index)`: the language's sort is stable.
unfoldable pub insert_by_index : Entry → List Entry → List Entry
insert_by_index e [] = e ∷ []
insert_by_index e (f ∷ fs) =
    let rest = insert_by_index e fs in if leb e.1.index f.1.index then e ∷ f ∷ fs else f ∷ rest

unfoldable pub sort_by_index : List Entry → List Entry
unfolding insert_by_index
sort_by_index [] = []
sort_by_index (e ∷ es) = insert_by_index e (sort_by_index es)

-- The local variables of `topoSort`.
pub record State : Type 0 where
  pub available : List String
  pub remaining : Dict BookmarkNode
  pub result : List Entry
  pub progress : Bool

-- One round of the inner loop.
unfoldable pub place : State → Entry → State
place s e =
    if contains s.available e.1.parent_id
    then record {
      available = add s.available e.0;
      remaining = delete s.remaining e.0;
      result = s.result ++ e ∷ [];
      progress = true;
    }
    else s

unfoldable pub sweep : State → List Entry → State
sweep s [] = s
sweep s (e ∷ es) = sweep (place s e) es

-- The outer loop on fuel; `none` means that the fuel ran out.
unfoldable pub rounds : ℕ → State → Option (List Entry)
unfolding place sweep sort_by_index
rounds zero s = none
rounds (suc fuel) s =
    let s' = sweep (record s { progress = false }) (sort_by_index s.remaining) in
    let next = rounds fuel s' in
    if nat_beq (length s.remaining) 0
    then some s.result
    else if s'.progress
    then next
    else some (s'.result ++ s'.remaining)

abbrev pub start : List Entry → List String → State
start entries initial_available = record {
  available = initial_available;
  remaining = put_all [] entries;
  result = [];
  progress = false;
}

-- One round for each entry, and one to see that nothing remains.
unfoldable pub topo_sort : List Entry → List String → Option (List Entry)
unfolding rounds
topo_sort entries initial_available =
    rounds (suc (length entries)) (start entries initial_available)
