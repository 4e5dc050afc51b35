-- ===== src/Bookmarks/Node.antt =====
-- The document's bookmark (extension/src/crdt/loro-doc.ts) and the browser's bookmark tree, with
-- `toNode` of extension/src/bookmarks/bridge.ts. A missing field and `null` are both `none`.
use vaultmarks.Shared.{
  ℕ, String, Bool, false, not, Option, none, some, List, [], ◌∷◌, ◌==◌, if◌then◌else◌, or_else,
}

pub data Kind : Type 0 where
  bookmark folder : Kind

pub record BookmarkNode : Type 0 where
  pub title : String
  pub url : Option String
  pub parent_id : String
  pub index : ℕ
  pub kind : Kind

-- `chrome.bookmarks.BookmarkTreeNode` without its children.
pub record Item : Type 0 where
  pub id : String
  pub parent_id : Option String
  pub title : String
  pub url : Option String
  pub index : Option ℕ

mutual
  pub data Tree : Type 0 where
    node : Item → Forest → Tree

  pub data Forest : Type 0 where
    nil : Forest
    cons : Tree → Forest → Forest

abbrev pub item : Tree → Item
item (node i ts) = i

abbrev pub children : Tree → Forest
children (node i ts) = ts

abbrev pub to_list : Forest → List Tree
to_list nil = []
to_list (cons t ts) = t ∷ to_list ts

-- A JavaScript string is true if it is there and not empty.
abbrev pub truthy : Option String → Bool
truthy none = false
truthy (some u) = not (u == "")

unfoldable pub to_node : Item → String → BookmarkNode
to_node i parent_loro_id = record {
  title = i.title;
  url = i.url;
  parent_id = parent_loro_id;
  index = or_else i.index 0;
  kind = if truthy i.url then bookmark else folder;
}
