-- ===== src/Crdt.antt =====
-- The document of extension/src/crdt/loro-doc.ts. The Loro library is not part of the repository:
-- its map of bookmarks enters as a record of operations with their documented behaviour.
use vaultmarks.Shared.{String, none, some, [], ◌≡◌, ◌==◌, if◌then◌else◌}
use vaultmarks.Shared.Dict.{Dict, get}
use vaultmarks.Bookmarks.Node.{BookmarkNode}
use vaultmarks.Shared.Dict.{KeysDistinct}

-- `set_bookmark`, `delete_bookmark` and `get_all_bookmarks` are `setBookmark`, `deleteBookmark` and
-- `getAllBookmarks`: a write or a delete of one key of a map, and the map as a record.
pub record Loro : Type 1 where
  pub Doc : Type 0
  pub empty_doc : Doc
  pub set_bookmark : String → BookmarkNode → Doc → Doc
  pub delete_bookmark : String → Doc → Doc
  pub get_all_bookmarks : Doc → Dict BookmarkNode
  pub all-empty : get_all_bookmarks empty_doc ≡ []
  pub all-distinct : (d : Doc) → KeysDistinct (get_all_bookmarks d)
  pub get-set :
      (d : Doc) (id : String) (n : BookmarkNode) (k : String)
      → get (get_all_bookmarks (set_bookmark id n d)) k
        ≡ (if id == k then some n else get (get_all_bookmarks d) k)
  pub get-removed :
      (d : Doc) (id k : String)
      → get (get_all_bookmarks (delete_bookmark id d)) k
        ≡ (if id == k then none else get (get_all_bookmarks d) k)
