-- ===== src/Tests/Bookmarks.antt =====
-- The theorems on extension/src/bookmarks/bridge.ts at concrete bookmarks.
use vaultmarks.Shared.{
  ℕ, zero, suc, String, true, false, none, some, List, [], ◌∷◌, ◌≡◌, ◌⊎◌, ◌==◌, sym, Option-cases,
  refl, arith, inl, inr, contains, eq_iff,
}
use vaultmarks.Shared.Dict.{Dict, get, put, KeysDistinct}
use mathlib.Core.List.{Perm}
use vaultmarks.Bookmarks.Node.{BookmarkNode, Item}
use vaultmarks.Bookmarks.Mapping.{Mapping, load_mapping, save_mapping}
use vaultmarks.Bookmarks.Mapping.Bijection.{IsBijective, load-save}
use vaultmarks.Bookmarks.Roots.{
  default_roots, init_browser_roots, is_virtual_root_id, chrome_parent_to_loro,
  loro_parent_to_chrome,
}
use vaultmarks.Bookmarks.Roots.Parents.{AvoidsRoots, parent_round_trip}
use vaultmarks.Bookmarks.TopoSort.{Entry, topo_sort}
use vaultmarks.Bookmarks.TopoSort.Total.{topo_sort_total}
use vaultmarks.Bookmarks.TopoSort.Order.{IsOrdered, HasParents, topo_sort-IsOrdered}
use vaultmarks.Bookmarks.Orphans.{effective_desired}
use vaultmarks.Bookmarks.Orphans.Closure.{IsClosed, IsPart, effective_desired_largest}
use vaultmarks.Bookmarks.Walk.{managed}
use vaultmarks.Bookmarks.Walk.Visits.{collect, managed_total}
use vaultmarks.Bookmarks.Walk.Parents.{ParentsFirst, managed_parents}
use vaultmarks.Bookmarks.Offline.{Bridge, merge_local_changes_into_doc, compute_offline_changes}
use vaultmarks.Bookmarks.Offline.Phases.{IsSound}
use vaultmarks.Bookmarks.Offline.Settles.{merge_settles, merge-IsBijective}
use vaultmarks.Tests.Data.{
  memory, uuid, unlike, different, folder_item, page_item, other_item, chrome_tree, firefox_tree,
  folder_node, page_node, stray_node,
}

abbrev two_ids : Mapping
two_ids = record {
  loro_to_chrome = ("f", "10") ∷ ("g", "13") ∷ [];
  chrome_to_loro = ("10", "f") ∷ ("13", "g") ∷ [];
}

-- A lookup in a map of two entries finds one of them.
found :
    {V : Type 0} (j : String) (v : V) (k : String) (w : V) (l : String) (c : V)
    → get ((j, v) ∷ (k, w) ∷ []) l ≡ some c
    → (j ≡ l) × (v ≡ c) ⊎ (k ≡ l) × (w ≡ c)
unfolding get
found j v k w l c h = grind (arith, eq_iff j l, eq_iff k l)

two_ids-IsBijective : IsBijective two_ids
unfolding get
two_ids-IsBijective = record {
  forth = λ l c h. elim (found "f" "10" "g" "13" l c h) [
    | inl (e, t) ↦ rw (sym e, sym t) refl
    | inr (e, t) ↦ rw (sym e, sym t) refl
  ];
  back = λ c l h. elim (found "10" "f" "13" "g" c l h) [
    | inl (e, t) ↦ rw (sym e, sym t) refl
    | inr (e, t) ↦ rw (sym e, sym t) refl
  ];
}

abbrev entries : Dict BookmarkNode
entries = ("f", folder_node) ∷ ("g", stray_node) ∷ []

entries-KeysDistinct : KeysDistinct entries
unfolding get
entries-KeysDistinct = (refl, (refl, tt))

abbrev bridge : Bridge memory.Doc
bridge = record { mapping = two_ids; doc = (entries, entries-KeysDistinct); saved = []; uuids = 0 }

abbrev visited : List Item
visited = record folder_item { title = "Renamed" } ∷ page_item ∷ other_item ∷ []

unused : (n : ℕ) → get two_ids.loro_to_chrome (uuid n) ≡ none
unfolding get
unused zero = refl
unused (suc n) = rw (unlike "f" n refl, unlike "g" n refl) refl

bridge-IsSound : IsSound memory uuid bridge
unfolding get
bridge-IsSound = record {
  bijective = two_ids-IsBijective;
  present = λ l c h. elim (found "f" "10" "g" "13" l c h) [
    | inl (e, t) ↦ rw (sym e) refl
    | inr (e, t) ↦ rw (sym e) refl
  ];
  nonempty = λ l c h. elim (found "f" "10" "g" "13" l c h) [
    | inl (e, t) ↦ rw (sym t) refl
    | inr (e, t) ↦ rw (sym t) refl
  ];
  fresh = λ n h. unused n;
}

-- A renamed folder, two new bookmarks and a deleted one.
merge_settles_example :
    compute_offline_changes default_roots
      (merge_local_changes_into_doc memory uuid default_roots visited bridge).mapping
      visited
      (memory.get_all_bookmarks
        (merge_local_changes_into_doc memory uuid default_roots visited bridge).doc)
    ≡ record { added = 0; removed = 0; modified = 0 }
merge_settles_example =
    merge_settles memory uuid default_roots different visited (refl, (refl, (refl, tt))) bridge
      bridge-IsSound

merge-IsBijective_example :
    IsBijective (merge_local_changes_into_doc memory uuid default_roots visited bridge).mapping
merge-IsBijective_example =
    merge-IsBijective memory uuid default_roots different visited (refl, (refl, (refl, tt))) bridge
      bridge-IsSound

load-save_example :
    IsBijective (load_mapping (save_mapping two_ids))
    × ((l : String)
        → get (load_mapping (save_mapping two_ids)).loro_to_chrome l ≡ get two_ids.loro_to_chrome l)
    × ((c : String)
        → get (load_mapping (save_mapping two_ids)).chrome_to_loro c ≡ get two_ids.chrome_to_loro c)
load-save_example = load-save two_ids two_ids-IsBijective (unfold get in (refl, (refl, tt)))

-- Firefox's tree, whose "mobile______" is missing: the target of "3" is filled in.
outside :
    {c d : String} (ids : List String) → c ≡ d → contains ids c ≡ true → contains ids d ≡ false → ⊥
outside ids e h k = ground (arith, e)

two_ids-AvoidsRoots : AvoidsRoots (init_browser_roots firefox_tree) two_ids
unfolding get init_browser_roots contains put
two_ids-AvoidsRoots = record {
  untranslated = λ c l h. elim (found "10" "f" "13" "g" c l h) [
    | inl (e, t) ↦ rw (sym e) refl
    | inr (e, t) ↦ rw (sym e) refl
  ];
  unlisted = λ c h. elim (Option-cases (get two_ids.chrome_to_loro c)) [
    | inl e ↦ e
    | inr (l, e) ↦ absurd (elim (found "10" "f" "13" "g" c l e) [
      | inl (e', t) ↦
          outside (init_browser_roots firefox_tree).all_native_root_ids (sym e') h (refl)
      | inr (e', t) ↦
          outside (init_browser_roots firefox_tree).all_native_root_ids (sym e') h (refl)
    ])
  ];
}

parent_round_trip_example :
    chrome_parent_to_loro
      (init_browser_roots firefox_tree)
      two_ids
      (loro_parent_to_chrome (init_browser_roots firefox_tree) two_ids "2")
    ≡ "2"
parent_round_trip_example =
    parent_round_trip firefox_tree two_ids
      (inr (refl, (inr (unfold get in refl), unfold contains in refl))) two_ids-IsBijective
      two_ids-AvoidsRoots "2" (inl (unfold contains in refl))

abbrev shuffled : List Entry
shuffled = ("p", page_node) ∷ ("s", stray_node) ∷ ("f", folder_node) ∷ []

shuffled-KeysDistinct : KeysDistinct shuffled
unfolding get
shuffled-KeysDistinct = (refl, (refl, (refl, tt)))

topo_sort_total_example :
    (out : List Entry) × (topo_sort shuffled ("1" ∷ []) ≡ some out) × Perm out shuffled
topo_sort_total_example = topo_sort_total shuffled ("1" ∷ []) shuffled-KeysDistinct

abbrev child_first : List Entry
child_first = ("p", page_node) ∷ ("f", folder_node) ∷ []

abbrev rank : String → ℕ
rank id = elim (id == "p") [ true ↦ 1 | false ↦ 0 ]

child_first-HasParents : HasParents ("1" ∷ []) rank ("1" ∷ []) child_first
unfolding get contains
child_first-HasParents id n h = elim (found "p" page_node "f" folder_node id n h) [
  | inl (e, t) ↦ rw (sym e, sym t) (inr (refl, omega arith))
  | inr (e, t) ↦ rw (sym e, sym t) (inl refl)
]

topo_sort-IsOrdered_example :
    (out : List Entry) × (topo_sort child_first ("1" ∷ []) ≡ some out) × IsOrdered ("1" ∷ []) out
topo_sort-IsOrdered_example =
    topo_sort-IsOrdered child_first ("1" ∷ []) rank (unfold get in (refl, (refl, tt)))
      child_first-HasParents

effective_desired_largest_example :
    (out : Dict BookmarkNode) × (effective_desired two_ids shuffled ≡ some out)
    × IsClosed two_ids out
    × IsPart two_ids out shuffled
    × ((c : Dict BookmarkNode)
        → IsClosed two_ids c
        → IsPart two_ids c shuffled
        → IsPart two_ids c out)
effective_desired_largest_example = effective_desired_largest two_ids shuffled shuffled-KeysDistinct

managed_total_example :
    (out : List Item) × (managed default_roots chrome_tree ≡ some out)
    × Perm out (collect default_roots chrome_tree)
managed_total_example = managed_total default_roots chrome_tree

chrome_walk : managed default_roots chrome_tree ≡ some (folder_item ∷ other_item ∷ page_item ∷ [])
unfolding managed is_virtual_root_id contains get
chrome_walk = refl

managed_parents_example : ParentsFirst default_roots [] (folder_item ∷ other_item ∷ page_item ∷ [])
managed_parents_example =
    managed_parents default_roots chrome_tree
      (refl, (refl, (refl, tt, tt), (refl, tt, tt)), (refl, tt, (refl, (refl, tt, tt), tt)))
      (unfold contains in refl) chrome_walk
