-- ===== src/Bookmarks/Reconcile.antt =====
-- `reconcile` of extension/src/bookmarks/bridge.ts: the browser's bookmarks are made those of the
-- document. `key_order` is the order in which the language lists the keys of a record, of which the
-- code lists those of the browser's ids.
pub mod Tracked
pub mod Settled
use vaultmarks.Shared.{
  ℕ, zero, suc, String, Bool, true, false, not, Option, none, some, List, [], ◌∷◌, ◌++◌, ◌==◌, ◌&&◌,
  ◌||◌, if◌then◌else◌, or_else, length, filter, contains, add, sort_by, is_some,
}
use vaultmarks.Shared.Dict.{Dict, get, has, put, keys}
use vaultmarks.Bookmarks.Node.{BookmarkNode, Item, Tree}
use vaultmarks.Bookmarks.Mapping.{Mapping, link, unlink, save_mapping}
use vaultmarks.Bookmarks.Roots.{
  Roots, canonical_root_ids, is_valid_chrome_parent_id, loro_parent_to_chrome,
}
use vaultmarks.Bookmarks.Browser.{Browser}
use vaultmarks.Bookmarks.Walk.{managed}
use vaultmarks.Bookmarks.Offline.{index_items, url_eq}
use vaultmarks.Bookmarks.Orphans.{effective_desired}
use vaultmarks.Bookmarks.TopoSort.{Entry, topo_sort}
use vaultmarks.Bookmarks.Listeners.{loro_id_of}

-- What the steps share: the browser, the mapping, and what the database holds of it.
pub record Reconciling (S : Type 0) : Type 0 where
  pub browser : S
  pub mapping : Mapping
  pub saved : List (String × String)

-- The walk of the browser's tree; it always ends within its fuel.
abbrev pub visits : Roots → Tree → List Item
visits r root = or_else (managed r root) []

-- `childrenOf.get(p)!.push(id)`, with an empty list made first where there is none.
unfoldable pub add_child : Dict (List String) → Item → Dict (List String)
add_child d i = let p = or_else i.parent_id "" in put d p (or_else (get d p) [] ++ i.id ∷ [])

unfoldable pub children_of : Dict (List String) → List Item → Dict (List String)
unfolding add_child
children_of d [] = d
children_of d (i ∷ is) = children_of (add_child d i) is

-- `allDescendants` on fuel: the queue that is left when it runs out is dropped.
unfoldable pub descend : ℕ → Dict (List String) → List String → List String
descend zero d queue = []
descend (suc fuel) d [] = []
descend (suc fuel) d (id ∷ queue) = id ∷ descend fuel d (queue ++ or_else (get d id) [])

-- The values of the record `current` in the language's order.
unfoldable pub values_of : Dict Item → List String → List Item
values_of current [] = []
values_of current (id ∷ ids) =
    let rest = values_of current ids in elim (get current id) [ none ↦ rest | some i ↦ i ∷ rest ]

-- A round has visited as many nodes as there are in the walk, and none twice.
unfoldable pub all_descendants : (List String → List String) → Dict Item → String → List String
unfolding children_of descend values_of
all_descendants key_order current chrome_id =
    let d = children_of [] (values_of current (key_order (keys current))) in
    descend (length current) d (or_else (get d chrome_id) [])

-- `deletedChromeIds.add(descId)` and the two deletes where `descLoro` is there.
unfoldable pub forget : Mapping → String → Mapping
unfolding loro_id_of
forget m chrome_id = elim (loro_id_of m chrome_id) [ none ↦ m | some l ↦ unlink l chrome_id m ]

unfoldable pub forget_all : Mapping → List String → Mapping
forget_all m [] = m
forget_all m (c ∷ cs) = forget_all (forget m c) cs

unfoldable pub add_all : List String → List String → List String
add_all xs [] = xs
add_all xs (y ∷ ys) = add_all (add xs y) ys

pub record FolderEntry : Type 0 where
  pub chrome_id : String
  pub desired : BookmarkNode
  pub existing : Item

unfoldable pub push_entry : Dict (List FolderEntry) → String → FolderEntry → Dict (List FolderEntry)
push_entry d p e = put d p (or_else (get d p) [] ++ e ∷ [])

-- Some entry has another parent.
unfoldable pub needs_move : String → List FolderEntry → Bool
needs_move parent_chrome_id [] = false
needs_move parent_chrome_id (e ∷ es) =
    not (or_else e.existing.parent_id "" == parent_chrome_id && is_some e.existing.parent_id)
    || needs_move parent_chrome_id es

unfoldable pub same_order : List FolderEntry → List FolderEntry → Bool
same_order [] es = true
same_order (e ∷ es) [] = false
same_order (e ∷ es) (f ∷ fs) = (e.chrome_id == f.chrome_id) && same_order es fs

abbrev pub desired_index : FolderEntry → ℕ
desired_index e = e.desired.index

abbrev pub current_index : FolderEntry → ℕ
current_index e = or_else e.existing.index 0

module _ (B : Browser) (r : Roots) (key_order : List String → List String) where
  -- Step 0 for one entry of the mapping.
  unfoldable pub purge_stale : Dict Item → B.State → Mapping → String × String → Mapping
  purge_stale current s m (loro_id, chrome_id) =
      let in_managed_tree : Bool = elim (B.get_item s chrome_id) [
        | none ↦ false
        | some bm ↦
            contains r.all_native_root_ids (or_else bm.parent_id "")
            || has m.chrome_to_loro (or_else bm.parent_id "")
      ] in
      if has current chrome_id || in_managed_tree then m else unlink loro_id chrome_id m

  unfoldable pub purge_all_stale : Dict Item → B.State → Mapping → List (String × String) → Mapping
  purge_all_stale current s m [] = m
  purge_all_stale current s m (e ∷ es) = purge_all_stale current s (purge_stale current s m e) es

  -- Step 1 for one id of the browser's.
  unfoldable pub remove_undesired :
      Dict Item
      → Dict BookmarkNode
      → Reconciling B.State × List String
      → String
      → Reconciling B.State × List String
  unfolding loro_id_of
  remove_undesired current effective (s, deleted) chrome_id =
      let loro_id = loro_id_of s.mapping chrome_id in
      let keep : Bool = elim loro_id [ none ↦ false | some l ↦ has effective l ] in
      if contains deleted chrome_id || keep
      then (s, deleted)
      else elim (B.remove_tree chrome_id s.browser) [
        | none ↦ (s, deleted)
        | some browser ↦
            let gone = all_descendants key_order current chrome_id in
            let m = forget_all s.mapping gone in
            (
              record s {
                browser = browser;
                mapping = elim loro_id [ none ↦ m | some l ↦ unlink l chrome_id m ];
              },
              add_all (add deleted chrome_id) gone,
            )
      ]

  unfoldable pub remove_all_undesired :
      Dict Item
      → Dict BookmarkNode
      → Reconciling B.State × List String
      → List String
      → Reconciling B.State × List String
  remove_all_undesired current effective s [] = s
  remove_all_undesired current effective s (c ∷ cs) =
      remove_all_undesired current effective (remove_undesired current effective s c) cs

  -- `Object.entries(effectiveDesired).filter(…)`
  unfoldable pub unmapped : Mapping → Dict BookmarkNode → List Entry
  unmapped m [] = []
  unmapped m ((l, n) ∷ es) =
      let rest = unmapped m es in if has m.loro_to_chrome l then rest else (l, n) ∷ rest

  -- Step 2 for one entry.
  unfoldable pub create_entry : Reconciling B.State → Entry → Reconciling B.State
  create_entry s (l, n) =
      let parent_chrome_id = loro_parent_to_chrome r s.mapping n.parent_id in
      if is_valid_chrome_parent_id r s.mapping parent_chrome_id
      then elim (B.create parent_chrome_id n.title n.url s.browser) [
        | none ↦ s
        | some (id, browser) ↦ record {
          browser = browser;
          mapping = link l id s.mapping;
          saved = save_mapping (link l id s.mapping);
        }
      ]
      else s

  unfoldable pub create_entries : Reconciling B.State → List Entry → Reconciling B.State
  create_entries s [] = s
  create_entries s (e ∷ es) = create_entries (create_entry s e) es

  unfoldable pub to_create : Mapping → Dict BookmarkNode → List Entry
  to_create m effective =
      let entries = unmapped m effective in
      or_else (topo_sort entries (canonical_root_ids ++ keys m.loro_to_chrome)) entries

  -- Step 3 for one entry: the browser, and the entry's folder where it has one.
  unfoldable pub update_entry :
      Dict Item
      → List String
      → Mapping
      → B.State × Dict (List FolderEntry)
      → Entry
      → B.State × Dict (List FolderEntry)
  update_entry current deleted m (s, by_folder) (l, n) = elim (get m.loro_to_chrome l) [
    | none ↦ (s, by_folder)
    | some c ↦ if c == "" || contains deleted c then (s, by_folder) else elim (get current c) [
      | none ↦ (s, by_folder)
      | some existing ↦
          let s' =
            if not (existing.title == n.title) || not (url_eq existing.url n.url)
            then B.update c n.title n.url s
            else s in
          (
            s',
            if contains canonical_root_ids n.parent_id || has m.loro_to_chrome n.parent_id
                then push_entry by_folder (loro_parent_to_chrome r m n.parent_id)
                    (record { chrome_id = c; desired = n; existing = existing })
                else by_folder,
          )
    ]
  ]

  unfoldable pub update_entries :
      Dict Item
      → List String
      → Mapping
      → B.State × Dict (List FolderEntry)
      → List Entry
      → B.State × Dict (List FolderEntry)
  update_entries current deleted m s [] = s
  update_entries current deleted m s (e ∷ es) =
      update_entries current deleted m (update_entry current deleted m s e) es

  -- Step 4: the moves of one folder, from the position `i` on.
  unfoldable pub move_entries : String → ℕ → B.State → List FolderEntry → B.State
  move_entries parent_chrome_id i s [] = s
  move_entries parent_chrome_id i s (e ∷ es) =
      move_entries parent_chrome_id (suc i) (B.move e.chrome_id parent_chrome_id i s) es

  unfoldable pub arrange_folder : B.State → String × List FolderEntry → B.State
  unfolding needs_move same_order
  arrange_folder s (parent_chrome_id, es) =
      let sorted = sort_by desired_index es in
      if not (needs_move parent_chrome_id sorted)
        && same_order (sort_by current_index sorted) sorted
      then s
      else move_entries parent_chrome_id 0 s sorted

  unfoldable pub arrange_folders : B.State → Dict (List FolderEntry) → B.State
  arrange_folders s [] = s
  arrange_folders s (f ∷ fs) = arrange_folders (arrange_folder s f) fs

  -- The whole, for the document's bookmarks.
  unfoldable pub reconcile : Dict BookmarkNode → Reconciling B.State → Reconciling B.State
  unfolding index_items
  reconcile desired s =
      let current = index_items [] (visits r (B.get_tree s.browser)) in
      let purged = purge_all_stale current s.browser s.mapping s.mapping.loro_to_chrome in
      let effective = or_else (effective_desired purged desired) desired in
      let (removed, deleted) =
        remove_all_undesired current effective (record s { mapping = purged }, [])
          (key_order (keys current)) in
      let created = create_entries removed (to_create removed.mapping effective) in
      let (updated, by_folder) =
        update_entries current deleted created.mapping (created.browser, []) effective in
      record created {
        browser = arrange_folders updated by_folder;
        saved = save_mapping created.mapping;
      }
