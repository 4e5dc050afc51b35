-- ===== src/Bookmarks/Mapping.antt =====
-- The local id mapping of extension/src/bookmarks/bridge.ts: two maps that mirror one another.
pub mod Bijection
use vaultmarks.Shared.{ℕ, String, Bool, Option, some, List, [], ◌∷◌, map, ltb, length}
use vaultmarks.Shared.Dict.{Dict, put, delete, put_all}

pub record Mapping : Type 0 where
  pub loro_to_chrome : Dict String
  pub chrome_to_loro : Dict String

abbrev pub empty : Mapping
empty = record { loro_to_chrome = []; chrome_to_loro = [] }

unfoldable pub has_established_mapping : Mapping → Bool
has_established_mapping m = ltb 0 (length m.loro_to_chrome)

abbrev pub swapped : List (String × String) → List (String × String)
swapped entries = map (λ e. (e.1, e.0)) entries

-- `entries` is what the database holds under `chromeIdMap-…`.
unfoldable pub load_mapping : List (String × String) → Mapping
load_mapping entries = record {
  loro_to_chrome = put_all [] entries;
  chrome_to_loro = put_all [] (swapped entries);
}

-- What `saveMapping` writes to the database.
unfoldable pub save_mapping : Mapping → List (String × String)
save_mapping m = m.loro_to_chrome

-- The pair of writes `_loroToChrome.set(…); _chromeToLoro.set(…)`.
unfoldable pub link : String → String → Mapping → Mapping
link loro_id chrome_id m = record {
  loro_to_chrome = put m.loro_to_chrome loro_id chrome_id;
  chrome_to_loro = put m.chrome_to_loro chrome_id loro_id;
}

-- The pair of deletes `_loroToChrome.delete(…); _chromeToLoro.delete(…)`.
unfoldable pub unlink : String → String → Mapping → Mapping
unlink loro_id chrome_id m = record {
  loro_to_chrome = delete m.loro_to_chrome loro_id;
  chrome_to_loro = delete m.chrome_to_loro chrome_id;
}
