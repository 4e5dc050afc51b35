-- ===== src/Bookmarks/Offline.antt =====
-- `mergeLocalChangesIntoDoc` and `computeOfflineChanges` of extension/src/bookmarks/bridge.ts:
-- changes of the browser's bookmarks that no listener saw.
pub mod Counts
pub mod Phases
pub mod Removal
pub mod Settles
use vaultmarks.Shared.{
  ℕ, suc, ◌+◌, String, Bool, true, false, not, Option, none, some, List, [], ◌∷◌, ◌++◌, ◌==◌, ◌||◌,
  if◌then◌else◌, or_else, nat_beq, leb, ltb, map,
}
use vaultmarks.Shared.Dict.{Dict, get, has, put, keys}
use vaultmarks.Bookmarks.Node.{BookmarkNode, Item, to_node}
use vaultmarks.Bookmarks.Mapping.{Mapping, link, unlink, save_mapping}
use vaultmarks.Bookmarks.Roots.{Roots, chrome_parent_to_loro}
use vaultmarks.Crdt.{Loro}

-- The mutable state that the bridge's operations share: the mapping, the document, what the
-- database holds of the mapping, and how many random ids were drawn.
pub record Bridge (D : Type 0) : Type 0 where
  pub mapping : Mapping
  pub doc : D
  pub saved : List (String × String)
  pub uuids : ℕ

-- `currentChrome`: the visited nodes by their ids.
unfoldable pub index_items : Dict Item → List Item → Dict Item
index_items d [] = d
index_items d (i ∷ is) = index_items (put d i.id i) is

-- `_loroToChrome.get(loroId)` followed by `if (!chromeId) continue`.
unfoldable pub mapped_id : Mapping → String → Option String
mapped_id m loro_id = elim (get m.loro_to_chrome loro_id) [
  | none ↦ none
  | some c ↦ if c == "" then none else some c
]

-- `normalizeUrl(a) === normalizeUrl(b)`
abbrev pub url_eq : Option String → Option String → Bool
url_eq none none = true
url_eq none (some v) = false
url_eq (some u) none = false
url_eq (some u) (some v) = u == v

abbrev pub index_eq : Option ℕ → ℕ → Bool
index_eq none n = false
index_eq (some i) n = nat_beq i n

-- The browser's node and the document's differ in title, URL or parent.
unfoldable pub is_changed : Item → BookmarkNode → String → Bool
is_changed i n parent_loro_id =
    not (i.title == n.title) || (not (url_eq i.url n.url) || not (parent_loro_id == n.parent_id))

module _ (r : Roots) (m : Mapping) (current : Dict Item) where
  -- The browser's node of a document id, where it has one that still exists.
  unfoldable pub chrome_node : String → Option Item
  unfolding mapped_id
  chrome_node loro_id = elim (mapped_id m loro_id) [ none ↦ none | some c ↦ get current c ]

  abbrev pub parent_of : Item → String
  parent_of i = chrome_parent_to_loro r m (or_else i.parent_id "1")

  -- Step 3 of the merge for one entry: the node that the document has afterwards.
  unfoldable pub refreshed : String → BookmarkNode → BookmarkNode
  refreshed loro_id n = elim (chrome_node loro_id) [
    | none ↦ n
    | some i ↦
        if is_changed i n (parent_of i) || not (index_eq i.index n.index)
        then to_node i (parent_of i)
        else n
  ]

module _ (L : Loro) (uuid : ℕ → String) (r : Roots) where
  -- Step 1: a node that is not mapped was added offline.
  unfoldable pub add_new : Bridge L.Doc → Item → Bridge L.Doc
  add_new b i = if has b.mapping.chrome_to_loro i.id then b else record b {
    mapping = link (uuid b.uuids) i.id b.mapping;
    doc =
        L.set_bookmark (uuid b.uuids)
          (to_node i (chrome_parent_to_loro r b.mapping (or_else i.parent_id "1"))) b.doc;
    uuids = suc b.uuids;
  }

  unfoldable pub add_all_new : Bridge L.Doc → List Item → Bridge L.Doc
  unfolding add_new
  add_all_new b [] = b
  add_all_new b (i ∷ is) = add_all_new (add_new b i) is

  -- Step 2: an entry whose node is gone was deleted offline.
  unfoldable pub remove_gone : Dict Item → Bridge L.Doc → String → Bridge L.Doc
  unfolding mapped_id
  remove_gone current b loro_id = elim (mapped_id b.mapping loro_id) [
    | none ↦ b
    | some c ↦ if has current c then b else record b {
      mapping = unlink loro_id c b.mapping;
      doc = L.delete_bookmark loro_id b.doc;
    }
  ]

  unfoldable pub remove_all_gone : Dict Item → Bridge L.Doc → List String → Bridge L.Doc
  unfolding remove_gone
  remove_all_gone current b [] = b
  remove_all_gone current b (l ∷ ls) = remove_all_gone current (remove_gone current b l) ls

  -- Step 3: an entry that differs from its node was modified offline.
  unfoldable pub update_changed : Mapping → Dict Item → L.Doc → List (String × BookmarkNode) → L.Doc
  update_changed m current d [] = d
  update_changed m current d ((l, n) ∷ es) =
      update_changed m current
        (elim (chrome_node r m current l) [
          | none ↦ d
          | some i ↦
              if is_changed i n (parent_of r m current i) || not (index_eq i.index n.index)
              then L.set_bookmark l (to_node i (parent_of r m current i)) d
              else d
        ])
        es

  -- `visit_order` is what the walk over the browser's tree lists.
  unfoldable pub merge_local_changes_into_doc : List Item → Bridge L.Doc → Bridge L.Doc
  unfolding index_items add_all_new remove_all_gone update_changed
  merge_local_changes_into_doc visit_order b =
      let current = index_items [] visit_order in
      let with_new = add_all_new b visit_order in
      let without_gone =
        remove_all_gone current with_new (keys (L.get_all_bookmarks with_new.doc)) in
      record without_gone {
        doc =
            update_changed without_gone.mapping current without_gone.doc
              (L.get_all_bookmarks without_gone.doc);
        saved = save_mapping without_gone.mapping;
      }

pub record Changes : Type 0 where
  pub added : ℕ
  pub removed : ℕ
  pub modified : ℕ

unfoldable pub has_changes : Changes → Bool
has_changes c = ltb 0 c.added || (ltb 0 c.removed || ltb 0 c.modified)

abbrev pub Siblings : Type 0
Siblings = Dict (List (String × ℕ))

-- `map.get(p)!.push(x)`, with an empty list made first where there is none.
unfoldable pub push : Siblings → String → String × ℕ → Siblings
push d p x = put d p (or_else (get d p) [] ++ x ∷ [])

-- `sort((a, b) => a[1] - b[1])`
unfoldable pub insert_sibling : String × ℕ → List (String × ℕ) → List (String × ℕ)
insert_sibling x [] = x ∷ []
insert_sibling x (y ∷ ys) =
    let rest = insert_sibling x ys in if leb x.1 y.1 then x ∷ y ∷ ys else y ∷ rest

unfoldable pub sibling_order : List (String × ℕ) → List (String × ℕ)
unfolding insert_sibling
sibling_order [] = []
sibling_order (x ∷ xs) = insert_sibling x (sibling_order xs)

-- `xs.some((id, i) => id !== ys[i])`
unfoldable pub is_reordered : List (String × ℕ) → List (String × ℕ) → Bool
is_reordered [] ys = false
is_reordered (x ∷ xs) [] = true
is_reordered (x ∷ xs) (y ∷ ys) = not (x.0 == y.0) || is_reordered xs ys

-- The variables of the loop that counts modified entries.
pub record Compared : Type 0 where
  pub modified : ℕ
  pub loro_by_parent : Siblings
  pub chrome_by_parent : Siblings

module _ (r : Roots) (m : Mapping) (current : Dict Item) where
  unfoldable pub compare_entry : Compared → String → BookmarkNode → Compared
  compare_entry s loro_id n = elim (chrome_node r m current loro_id) [
    | none ↦ s
    | some i ↦
        if is_changed i n (parent_of r m current i)
        then record s { modified = suc s.modified }
        else record s {
          loro_by_parent = push s.loro_by_parent n.parent_id (loro_id, n.index);
          chrome_by_parent =
              push s.chrome_by_parent (parent_of r m current i) (loro_id, or_else i.index 0);
        }
  ]

  unfoldable pub compare_entries : Compared → List (String × BookmarkNode) → Compared
  compare_entries s [] = s
  compare_entries s ((l, n) ∷ es) = compare_entries (compare_entry s l n) es

-- One "modified" for each folder whose siblings stand in another order.
unfoldable pub count_reordered : Siblings → Siblings → ℕ
unfolding sibling_order is_reordered
count_reordered [] chrome = 0
count_reordered ((p, es) ∷ loro) chrome =
    (if is_reordered (sibling_order es) (sibling_order (or_else (get chrome p) [])) then 1 else 0)
    + count_reordered loro chrome

unfoldable pub count_added : Mapping → List String → ℕ
count_added m [] = 0
count_added m (c ∷ cs) = (if has m.chrome_to_loro c then 0 else 1) + count_added m cs

-- The code looks each document id of the mapping up again.
unfoldable pub count_removed : Mapping → Dict Item → List String → ℕ
count_removed m current [] = 0
count_removed m current (l ∷ ls) =
    (elim (get m.loro_to_chrome l) [ none ↦ 1 | some c ↦ if has current c then 0 else 1 ])
    + count_removed m current ls

unfoldable pub compute_offline_changes : Roots → Mapping → List Item → Dict BookmarkNode → Changes
unfolding index_items compare_entries count_reordered count_added count_removed
compute_offline_changes r m visit_order loro_bookmarks =
    let current = index_items [] visit_order in
    let s =
      compare_entries r m current
        (record { modified = 0; loro_by_parent = []; chrome_by_parent = [] }) loro_bookmarks in
    record {
      added = count_added m (keys current);
      removed = count_removed m current (keys m.loro_to_chrome);
      modified = s.modified + count_reordered s.loro_by_parent s.chrome_by_parent;
    }
