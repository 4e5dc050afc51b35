-- ===== src/Tests/Import.antt =====
-- The theorems on an import and on the bootstrap at concrete bookmarks.
use vaultmarks.Shared.{
  ℕ, zero, suc, ◌≤◌, String, true, none, some, List, [], ◌∷◌, ◌≡◌, refl, arith, All,
}
use vaultmarks.Shared.Dict.{Dict, get, has, KeysDistinct}
use vaultmarks.Bookmarks.Node.{BookmarkNode, Item}
use vaultmarks.Bookmarks.Mapping.{empty, save_mapping}
use vaultmarks.Bookmarks.Mapping.Bijection.{IsBijective}
use vaultmarks.Bookmarks.Roots.{default_roots}
use vaultmarks.Bookmarks.Offline.{Bridge}
use vaultmarks.Bookmarks.Offline.Phases.{IsSound}
use vaultmarks.Bookmarks.Import.{
  compute_local_import_diff, merge_import_into_doc, bootstrap_from_chrome,
}
use vaultmarks.Bookmarks.Import.Bootstrap.{AreNew, bootstrap_maps}
use vaultmarks.Bookmarks.Import.Keeps.{merge_import_keeps}
use vaultmarks.Bookmarks.Import.Urls.{import_settles}
use vaultmarks.Tests.Data.{
  memory, uuid, unlike, different, folder_item, page_item, other_item, folder_node, page_node,
}

-- The account has a folder of the same title and the first of the two pages.
abbrev server : Dict BookmarkNode
server = ("f", folder_node) ∷ ("g", page_node) ∷ []

server-KeysDistinct : KeysDistinct server
unfolding get
server-KeysDistinct = (refl, (refl, tt))

abbrev bridge : Bridge memory.Doc
bridge = record { mapping = empty; doc = (server, server-KeysDistinct); saved = []; uuids = 0 }

bridge-IsSound : IsSound memory uuid bridge
unfolding get
bridge-IsSound = record {
  bijective = record {
    forth = λ l c h. absurd (ground arith);
    back = λ c l h. absurd (ground arith);
  };
  present = λ l c h. absurd (ground arith);
  nonempty = λ l c h. absurd (ground arith);
  fresh = λ n h. refl;
}

unused : (n : ℕ) → 0 ≤ n → get server (uuid n) ≡ none
unfolding get
unused zero h = refl
unused (suc n) h = rw (unlike "f" n refl, unlike "g" n refl) refl

abbrev visited : List Item
visited = folder_item ∷ other_item ∷ page_item ∷ []

visited-AreNew : AreNew empty visited
unfolding get
visited-AreNew = (refl, (refl, (refl, tt)), (refl, (refl, tt), (refl, tt, tt)))

merge_import_keeps_example :
    ((l : String) (n : BookmarkNode)
      → get server l ≡ some n
      → get
          (memory.get_all_bookmarks
            (merge_import_into_doc memory uuid default_roots true visited bridge).doc)
          l
        ≡ some n)
    × IsBijective (merge_import_into_doc memory uuid default_roots true visited bridge).mapping
    × ((l c : String)
        → get
            (merge_import_into_doc memory uuid default_roots true visited
              bridge).mapping.loro_to_chrome
            l
          ≡ some c
        → has
            (memory.get_all_bookmarks
              (merge_import_into_doc memory uuid default_roots true visited bridge).doc)
            l
          ≡ true)
merge_import_keeps_example =
    merge_import_keeps memory uuid default_roots different true visited (refl, (refl, (refl, tt)))
      bridge bridge-IsSound unused

import_settles_example :
    (compute_local_import_diff visited (
      memory.get_all_bookmarks
        (merge_import_into_doc memory uuid default_roots true visited bridge).doc)).local_only
    ≡ 0
import_settles_example =
    import_settles memory uuid default_roots different true visited (refl, (refl, (refl, tt)))
      bridge bridge-IsSound unused visited-AreNew

bootstrap_maps_example :
    All
      (λ i.
        has
          (bootstrap_from_chrome memory uuid default_roots visited bridge).0.mapping.chrome_to_loro
          i.id
        ≡ true)
      visited
    × IsBijective (bootstrap_from_chrome memory uuid default_roots visited bridge).0.mapping
    × ((l c : String)
        → get
            (bootstrap_from_chrome memory uuid default_roots visited
              bridge).0.mapping.loro_to_chrome
            l
          ≡ some c
        → has
            (memory.get_all_bookmarks
              (bootstrap_from_chrome memory uuid default_roots visited bridge).0.doc)
            l
          ≡ true)
    × ((bootstrap_from_chrome memory uuid default_roots visited bridge).0.saved
        ≡ save_mapping (bootstrap_from_chrome memory uuid default_roots visited bridge).0.mapping)
bootstrap_maps_example =
    bootstrap_maps memory uuid default_roots different bridge visited (refl, (refl, (refl, tt)))
      visited-AreNew bridge-IsSound
