-- ===== src/Tests/Listeners.antt =====
-- The theorem on the listener for a removed bookmark at a folder with a page.
use vaultmarks.Shared.{
  String, none, some, [], ◌∷◌, ◌≡◌, if◌then◌else◌, refl, sym, eq_iff, arith, contains,
}
use vaultmarks.Shared.Dict.{Dict, get, put, KeysDistinct}
use vaultmarks.Bookmarks.Node.{BookmarkNode, Tree, node, nil, cons}
use vaultmarks.Bookmarks.Mapping.{empty, link, save_mapping}
use vaultmarks.Bookmarks.Mapping.Bijection.{link-IsBijective}
use vaultmarks.Bookmarks.Offline.{Bridge}
use vaultmarks.Bookmarks.Listeners.{on_remove}
use vaultmarks.Bookmarks.Listeners.Removed.{IsMapped, ids, on_remove_exact}
use vaultmarks.Tests.Data.{memory, folder_item, page_item, folder_node}

abbrev entries : Dict BookmarkNode
entries = ("f", folder_node) ∷ []

entries-KeysDistinct : KeysDistinct entries
unfolding get
entries-KeysDistinct = (refl, tt)

abbrev bridge : Bridge memory.Doc
bridge = record {
  mapping = link "f" "10" empty;
  doc = (entries, entries-KeysDistinct);
  saved = [];
  uuids = 1;
}

-- A lookup in a map of one entry finds that entry.
found_one : (j v l c : String) → get ((j, v) ∷ []) l ≡ some c → (j ≡ l) × (v ≡ c)
unfolding get
found_one j v l c h = grind (arith, eq_iff j l)

bridge-IsMapped : IsMapped memory bridge
unfolding get link
bridge-IsMapped = record {
  bijective =
      link-IsBijective "f" "10" empty
        (record { forth = λ l c h. absurd (ground arith); back = λ c l h. absurd (ground arith) })
        refl refl;
  present = λ l c h. rw (sym (found_one "f" "10" l c (unfold link put in h)).0) refl;
  named = λ c l h. rw (sym (found_one "10" "f" c l (unfold link put in h)).1) refl;
}

-- The page below the folder is not mapped.
abbrev removed : Tree
removed = node folder_item (cons (node page_item nil) nil)

on_remove_exact_example :
    ((c : String)
      → get (on_remove memory bridge removed).mapping.chrome_to_loro c
        ≡ (if contains (ids removed) c then none else get bridge.mapping.chrome_to_loro c))
    × IsMapped memory (on_remove memory bridge removed)
    × ((on_remove memory bridge removed).saved
        ≡ save_mapping (on_remove memory bridge removed).mapping)
on_remove_exact_example = on_remove_exact memory bridge removed bridge-IsMapped
