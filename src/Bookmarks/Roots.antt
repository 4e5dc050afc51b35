-- ===== src/Bookmarks/Roots.antt =====
-- Root ids of the browser and of the document, and the translation of parent ids between the two
-- id spaces (extension/src/bookmarks/bridge.ts).
pub mod Translation
pub mod Parents
use vaultmarks.Shared.{
  String, Bool, true, false, not, Option, none, some, List, [], ◌∷◌, ◌++◌, ◌==◌, ◌||◌,
  if◌then◌else◌, or_else, contains, add,
}
use vaultmarks.Shared.Dict.{Dict, get, has, put}
use vaultmarks.Bookmarks.Node.{Tree, Forest, nil, cons, item, children}
use vaultmarks.Bookmarks.Mapping.{Mapping}

abbrev pub canonical_root_ids : List String
canonical_root_ids = "0" ∷ "1" ∷ "2" ∷ "3" ∷ []

abbrev pub firefox_root_canonical : Dict String
firefox_root_canonical =
    ("root________", "0")
    ∷ ("toolbar_____", "1")
    ∷ ("unfiled_____", "2")
    ∷ ("mobile______", "3")
    ∷ []

-- The three module variables of the root translation.
pub record Roots : Type 0 where
  pub native_to_canonical : Dict String
  pub canonical_to_native : Dict String
  pub all_native_root_ids : List String

abbrev pub identity_roots : Dict String
identity_roots = ("0", "0") ∷ ("1", "1") ∷ ("2", "2") ∷ ("3", "3") ∷ []

-- Their initial values, right for Chrome.
abbrev pub default_roots : Roots
default_roots = record {
  native_to_canonical = identity_roots;
  canonical_to_native = identity_roots;
  all_native_root_ids = canonical_root_ids;
}

-- The tables after the virtual root of a browser that is not Chrome.
unfoldable pub virtual_roots : String → Roots
virtual_roots virtual_id = record {
  native_to_canonical = put (("0", "0") ∷ []) virtual_id "0";
  canonical_to_native = ("0", virtual_id) ∷ [];
  all_native_root_ids = add canonical_root_ids virtual_id;
}

-- One round of the loop over the virtual root's children.
unfoldable pub add_root : Roots → String → Roots
add_root r id = elim (get firefox_root_canonical id) [
  | none ↦ r
  | some canonical ↦ record {
    native_to_canonical = put r.native_to_canonical id canonical;
    canonical_to_native =
        if not (has r.canonical_to_native canonical) || id == "unfiled_____"
        then put r.canonical_to_native canonical id
        else r.canonical_to_native;
    all_native_root_ids = add r.all_native_root_ids id;
  }
]

unfoldable pub add_roots : Roots → Forest → Roots
add_roots r nil = r
add_roots r (cons t ts) = add_roots (add_root r (item t).id) ts

-- One round of the last loop, which gives every canonical root a target to write to.
unfoldable pub add_target : Roots → String → Roots
add_target r canonical =
    if has r.canonical_to_native canonical
    then r
    else record r { canonical_to_native = put r.canonical_to_native canonical canonical }

unfoldable pub init_browser_roots : Tree → Roots
unfolding virtual_roots add_roots add_root add_target
init_browser_roots root =
    if (item root).id == "0"
    then default_roots
    else add_target
        (add_target (add_target (add_roots (virtual_roots (item root).id) (children root)) "1") "2")
        "3"

abbrev pub is_any_root_id : Roots → String → Bool
is_any_root_id r id = contains r.all_native_root_ids id

unfoldable pub is_virtual_root_id : Roots → String → Bool
is_virtual_root_id r id = id == "0" || id == or_else (get r.canonical_to_native "0") "0"

unfoldable pub is_valid_chrome_parent_id : Roots → Mapping → String → Bool
unfolding is_virtual_root_id
is_valid_chrome_parent_id r m id =
    if is_virtual_root_id r id
    then false
    else if contains r.all_native_root_ids id
    then true
    else has m.chrome_to_loro id

unfoldable pub chrome_parent_to_loro : Roots → Mapping → String → String
chrome_parent_to_loro r m id = elim (get r.native_to_canonical id) [
  | some canonical ↦ canonical
  | none ↦ or_else (get m.chrome_to_loro id) id
]

unfoldable pub loro_parent_to_chrome : Roots → Mapping → String → String
loro_parent_to_chrome r m id = elim (get r.canonical_to_native id) [
  | some native ↦ native
  | none ↦ or_else (get m.loro_to_chrome id) id
]
