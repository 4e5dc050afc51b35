-- ===== src/Bookmarks/Import.antt =====
-- `bootstrapFromChrome`, `computeLocalImportDiff` and `mergeImportIntoDoc` of
-- extension/src/bookmarks/bridge.ts: the browser's bookmarks on a new device.
pub mod Keeps
pub mod Diff
pub mod Bootstrap
pub mod Urls
use vaultmarks.Shared.{
  ℕ, suc, ◌+◌, String, Bool, true, false, not, Option, none, some, List, [], ◌∷◌, ◌==◌, ◌&&◌,
  if◌then◌else◌, or_else, ltb, contains, add,
}
use vaultmarks.Shared.Dict.{Dict, get, has, put}
use vaultmarks.Bookmarks.Node.{BookmarkNode, Kind, Item, truthy, to_node}
use vaultmarks.Bookmarks.Mapping.{Mapping, link, save_mapping}
use vaultmarks.Bookmarks.Roots.{Roots, chrome_parent_to_loro}
use vaultmarks.Bookmarks.Offline.{Bridge}
use vaultmarks.Crdt.{Loro}

-- `if (node.url) chromeUrls.add(node.url)`
abbrev pub add_url : List String → Option String → List String
add_url urls none = urls
add_url urls (some u) = if truthy (some u) then add urls u else urls

unfoldable pub chrome_urls : List String → List Item → List String
chrome_urls urls [] = urls
chrome_urls urls (i ∷ is) = chrome_urls (add_url urls i.url) is

unfoldable pub server_urls : List String → Dict BookmarkNode → List String
server_urls urls [] = urls
server_urls urls ((l, n) ∷ es) = server_urls (add_url urls n.url) es

unfoldable pub count_missing : List String → List String → ℕ
count_missing there [] = 0
count_missing there (u ∷ us) = (if contains there u then 0 else 1) + count_missing there us

pub record ImportDiff : Type 0 where
  pub local_only : ℕ
  pub server_only : ℕ

-- `visit_order` is what the walk over the browser's tree lists.
unfoldable pub compute_local_import_diff : List Item → Dict BookmarkNode → ImportDiff
unfolding chrome_urls server_urls count_missing
compute_local_import_diff visit_order server_bookmarks =
    let local = chrome_urls [] visit_order in
    let server = server_urls [] server_bookmarks in
    record { local_only = count_missing server local; server_only = count_missing local server }

-- `maxServerIndex`; a parent that is missing stands for -1.
unfoldable pub max_server_index : Dict ℕ → Dict BookmarkNode → Dict ℕ
max_server_index d [] = d
max_server_index d ((l, n) ∷ es) =
    max_server_index
      (elim (get d n.parent_id) [
        | none ↦ put d n.parent_id n.index
        | some cur ↦ if ltb cur n.index then put d n.parent_id n.index else d
      ])
      es

abbrev pub is_folder : Kind → Bool
is_folder Kind.bookmark = false
is_folder Kind.folder = true

-- The first folder of the server with the title and the parent that is not mapped.
unfoldable pub matching_folder : Mapping → Item → String → Dict BookmarkNode → Option String
matching_folder m i parent_loro_id [] = none
matching_folder m i parent_loro_id ((l, n) ∷ es) =
    let rest = matching_folder m i parent_loro_id es in
    if not (has m.loro_to_chrome l)
      && (is_folder n.kind && ((n.title == i.title) && (n.parent_id == parent_loro_id)))
    then some l
    else rest

-- `nextIndex.get(p) ?? (serverMax + 1)`
unfoldable pub append_index : Dict ℕ → Dict ℕ → String → ℕ
append_index next_index max_index p = elim (get next_index p) [
  | some i ↦ i
  | none ↦ elim (get max_index p) [ none ↦ 0 | some k ↦ suc k ]
]

-- The bridge and the local map `nextIndex`.
pub record Importing (D : Type 0) : Type 0 where
  pub bridge : Bridge D
  pub next_index : Dict ℕ

module _ (L : Loro) (uuid : ℕ → String) (r : Roots) where
  -- One round of `bootstrapFromChrome`.
  unfoldable pub seed : Bridge L.Doc → Item → Bridge L.Doc
  seed b i = record b {
    mapping = link (uuid b.uuids) i.id b.mapping;
    doc =
        L.set_bookmark (uuid b.uuids)
          (to_node i (chrome_parent_to_loro r b.mapping (or_else i.parent_id "1"))) b.doc;
    uuids = suc b.uuids;
  }

  unfoldable pub seed_all : Bridge L.Doc → List Item → Bridge L.Doc
  seed_all b [] = b
  seed_all b (i ∷ is) = seed_all (seed b i) is

  unfoldable pub count_items : List Item → ℕ
  count_items [] = 0
  count_items (i ∷ is) = suc (count_items is)

  -- The bridge afterwards and the number of items added.
  unfoldable pub bootstrap_from_chrome : List Item → Bridge L.Doc → Bridge L.Doc × ℕ
  bootstrap_from_chrome visit_order b =
      let seeded = seed_all b visit_order in
      (record seeded { saved = save_mapping seeded.mapping }, count_items visit_order)

  -- A new entry of the document, after all of the server's in its folder.
  unfoldable pub append_item : Dict ℕ → String → Importing L.Doc → Item → Importing L.Doc
  unfolding append_index
  append_item max_index parent_loro_id s i =
      let idx = append_index s.next_index max_index parent_loro_id in
      let b = s.bridge in
      record {
        bridge = record b {
          mapping = link (uuid b.uuids) i.id b.mapping;
          doc =
              L.set_bookmark (uuid b.uuids) (record (to_node i parent_loro_id) { index = idx })
                b.doc;
          uuids = suc b.uuids;
        };
        next_index = put s.next_index parent_loro_id (suc idx);
      }

  module _ (exclude_duplicates : Bool) (server_bookmarks : Dict BookmarkNode) where
    abbrev urls : List String
    urls = server_urls [] server_bookmarks

    abbrev max_index : Dict ℕ
    max_index = max_server_index [] server_bookmarks

    -- A folder of the server takes the node's id, where the loop finds one.
    unfoldable pub place_item : Importing L.Doc → Item → String → Importing L.Doc
    place_item s i parent_loro_id =
        let b = s.bridge in
        let appended = append_item max_index parent_loro_id s i in
        elim (if not (truthy i.url) && exclude_duplicates
          then matching_folder b.mapping i parent_loro_id server_bookmarks
          else none) [
            | none ↦ appended
            | some l ↦
                if l == ""
                then appended
                else record s { bridge = record b { mapping = link l i.id b.mapping } }
          ]

    unfoldable pub import_item : Importing L.Doc → Item → Importing L.Doc
    import_item s i =
        let parent_loro_id = chrome_parent_to_loro r s.bridge.mapping (or_else i.parent_id "1") in
        let placed = place_item s i parent_loro_id in
        if has s.bridge.mapping.chrome_to_loro i.id
        then s
        else if truthy i.url && (exclude_duplicates && contains urls (or_else i.url ""))
        then s
        else placed

    unfoldable pub import_items : Importing L.Doc → List Item → Importing L.Doc
    import_items s [] = s
    import_items s (i ∷ is) = import_items (import_item s i) is

  unfoldable pub merge_import_into_doc : Bool → List Item → Bridge L.Doc → Bridge L.Doc
  merge_import_into_doc exclude_duplicates visit_order b =
      let s =
        import_items exclude_duplicates (L.get_all_bookmarks b.doc)
          (record { bridge = b; next_index = [] }) visit_order in
      record s.bridge { saved = save_mapping s.bridge.mapping }
