-- ===== src/Bookmarks/Listeners/Create.antt =====
-- The listener of extension/src/bookmarks/bridge.ts for a new bookmark, with `ensureAncestorsMapped`.
-- The browser's answers to `chrome.bookmarks.get` are a parameter, and stay the same while the
-- listener runs. The walk up to a mapped folder is on fuel; `none` means that the fuel ran out.
use vaultmarks.Shared.{ℕ, zero, suc, String, Option, none, some, or_else, if◌then◌else◌}
use mathlib.Core.Option
use vaultmarks.Shared.Dict.{get, has}
use vaultmarks.Bookmarks.Node.{BookmarkNode, Item, to_node}
use vaultmarks.Bookmarks.Mapping.{link, save_mapping}
use vaultmarks.Bookmarks.Roots.{Roots, is_any_root_id}
use vaultmarks.Bookmarks.Walk.{is_beside_roots}
use vaultmarks.Bookmarks.Offline.{Bridge}
use vaultmarks.Bookmarks.Listeners.{loro_id_of}
use vaultmarks.Crdt.{Loro}

module _ (L : Loro) (uuid : ℕ → String) (r : Roots) (get_item : String → Option Item) where
  -- A new entry of the document, mapped to the browser's id.
  abbrev pub map_new : Bridge L.Doc → String → BookmarkNode → Bridge L.Doc
  map_new b id n = record b {
    mapping = link (uuid b.uuids) id b.mapping;
    doc = L.set_bookmark (uuid b.uuids) n b.doc;
    uuids = suc b.uuids;
  }

  -- The folder's own part, once its parent is mapped.
  abbrev pub map_folder : Item → String × Bridge L.Doc → String × Bridge L.Doc
  map_folder i (parent_loro_id, b) = (uuid b.uuids, map_new b i.id (to_node i parent_loro_id))

  -- `ensureAncestorsMapped`: the document's id of the parent, and the bridge with the new folders.
  unfoldable pub ensure_ancestors_mapped :
      ℕ → Bridge L.Doc → String → Option (String × Bridge L.Doc)
  unfolding loro_id_of
  ensure_ancestors_mapped zero b id = none
  ensure_ancestors_mapped (suc fuel) b id =
      if is_any_root_id r id
      then some (or_else (get r.native_to_canonical id) id, b)
      else elim (loro_id_of b.mapping id) [
        | some l ↦ some (l, b)
        | none ↦ elim (get_item id) [
          | none ↦ some ("2", b)
          | some i ↦
              let above = ensure_ancestors_mapped fuel b (or_else i.parent_id "1") in
              if is_beside_roots r i then some ("2", b) else Option.map (map_folder i) above
        ]
      ]

  -- The new bookmark's own part, at the place where the browser has it now.
  abbrev pub map_created : Item → String → ℕ → String × Bridge L.Doc → Bridge L.Doc
  map_created n parent_id index (parent_loro_id, b) =
      let made =
        map_new b n.id
          (to_node (record n { parent_id = some parent_id; index = some index }) parent_loro_id) in
      record made { saved = save_mapping made.mapping }

  unfoldable pub on_create : ℕ → Bridge L.Doc → Item → Option (Bridge L.Doc)
  on_create fuel b n = if has b.mapping.chrome_to_loro n.id then some b else elim (get_item n.id) [
    | none ↦ some b
    | some live ↦
        let live_parent_id = or_else live.parent_id (or_else n.parent_id "1") in
        let live_index = or_else live.index (or_else n.index 0) in
        Option.map (map_created n live_parent_id live_index)
          (ensure_ancestors_mapped fuel b live_parent_id)
  ]
