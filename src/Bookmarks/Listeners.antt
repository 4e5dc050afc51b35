-- ===== src/Bookmarks/Listeners.antt =====
-- The listeners of extension/src/bookmarks/bridge.ts for a removed, a changed and a moved bookmark.
-- The delta that follows each (`onLocalChange`) is the document library's and the queue's.
pub mod Removed
pub mod Create
pub mod Created
use vaultmarks.Shared.{
  ℕ, suc, String, Option, none, some, List, [], ◌∷◌, ◌++◌, ◌==◌, if◌then◌else◌, or_else,
}
use vaultmarks.Shared.Dict.{get}
use vaultmarks.Bookmarks.Node.{BookmarkNode, Item, Tree, Forest, node, nil, cons}
use vaultmarks.Bookmarks.Mapping.{Mapping, unlink, save_mapping}
use vaultmarks.Bookmarks.Roots.{Roots, chrome_parent_to_loro}
use vaultmarks.Bookmarks.Offline.{Bridge}
use vaultmarks.Crdt.{Loro}

-- `_chromeToLoro.get(id)` followed by the test that the id is there and not empty.
unfoldable pub loro_id_of : Mapping → String → Option String
loro_id_of m id = elim (get m.chrome_to_loro id) [
  | none ↦ none
  | some l ↦ if l == "" then none else some l
]

module _ (L : Loro) where
  unfoldable pub purge_node : Bridge L.Doc → String → Bridge L.Doc
  unfolding loro_id_of
  purge_node b id = elim (loro_id_of b.mapping id) [
    | none ↦ b
    | some l ↦ record b { mapping = unlink l id b.mapping; doc = L.delete_bookmark l b.doc }
  ]

  -- `purge`: the node, then its children from the left, each with all below it.
  unfoldable mutual
    pub purge : Bridge L.Doc → Tree → Bridge L.Doc
    purge b (node i ts) = purge_all (purge_node b i.id) ts

    pub purge_all : Bridge L.Doc → Forest → Bridge L.Doc
    purge_all b nil = b
    purge_all b (cons t ts) = purge_all (purge b t) ts

  unfoldable pub on_remove : Bridge L.Doc → Tree → Bridge L.Doc
  on_remove b t = let purged = purge b t in record purged { saved = save_mapping purged.mapping }

  -- The two fields of `changes` may be missing.
  unfoldable pub on_change : Bridge L.Doc → String → Option String → Option String → Bridge L.Doc
  on_change b id title url = elim (loro_id_of b.mapping id) [
    | none ↦ b
    | some l ↦ elim (get (L.get_all_bookmarks b.doc) l) [
      | none ↦ b
      | some n ↦ record b {
        doc =
            L.set_bookmark l
              (record n {
                title = or_else title n.title;
                url = elim url [ none ↦ n.url | some u ↦ some u ];
              })
              b.doc;
      }
    ]
  ]

  -- The children of a folder from the position `idx` on.
  unfoldable pub move_children : String → ℕ → Bridge L.Doc → List Item → Bridge L.Doc
  move_children parent_loro_id idx b [] = b
  move_children parent_loro_id idx b (i ∷ is) =
      move_children parent_loro_id (suc idx)
        (elim (loro_id_of b.mapping i.id) [
          | none ↦ b
          | some l ↦ elim (get (L.get_all_bookmarks b.doc) l) [
            | none ↦ b
            | some n ↦ record b {
              doc = L.set_bookmark l (record n { parent_id = parent_loro_id; index = idx }) b.doc;
            }
          ]
        ])
        is

  -- `get_children` is the browser's.
  unfoldable pub on_move :
      Roots → (String → List Item) → Bridge L.Doc → String → String → Bridge L.Doc
  on_move r get_children b parent_id old_parent_id =
      let moved =
        move_children (chrome_parent_to_loro r b.mapping parent_id) 0 b (get_children parent_id) in
      if old_parent_id == parent_id
      then moved
      else move_children (chrome_parent_to_loro r moved.mapping old_parent_id) 0 moved
          (get_children old_parent_id)
