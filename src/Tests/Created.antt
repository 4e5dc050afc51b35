-- ===== src/Tests/Created.antt =====
-- The theorem on the listener for a new bookmark at a page in a folder that is not mapped yet.
use vaultmarks.Shared.{
  ℕ, ◌==◌, String, Option, some, [], ◌∷◌, ◌≡◌, if◌then◌else◌, refl, sym, arith, eq_iff, inl, inr,
  ◌⊎◌, contains,
}
use vaultmarks.Shared.Dict.{Dict, get}
use vaultmarks.Bookmarks.Node.{BookmarkNode, Item}
use vaultmarks.Bookmarks.Mapping.{empty, save_mapping}
use vaultmarks.Bookmarks.Roots.{default_roots}
use vaultmarks.Bookmarks.Offline.{Bridge}
use vaultmarks.Bookmarks.Listeners.Create.{on_create}
use vaultmarks.Bookmarks.Listeners.Created.{IsTree, IsReady, IsAnchor, Keeps, on_create_anchored}
use vaultmarks.Tests.Data.{memory, uuid, uuid-nonempty, different, folder_item, page_item}

abbrev items : Dict Item
items = ("10", folder_item) ∷ ("11", page_item) ∷ []

abbrev get_item : String → Option Item
get_item c = get items c

abbrev depth : String → ℕ
depth c = if c == "11" then 2 else if c == "10" then 1 else 0

items-cases :
    (c : String) (i : Item)
    → get_item c ≡ some i
    → ((folder_item ≡ i) × ("10" ≡ c)) ⊎ ((page_item ≡ i) × ("11" ≡ c))
unfolding get
items-cases c i h = grind (arith, eq_iff "10" c, eq_iff "11" c)

-- The folder stands below the bookmarks bar, and the page in the folder.
get_item-IsTree : IsTree default_roots get_item depth
get_item-IsTree = record {
  same = λ c i h. elim (items-cases c i h) [
    | inl (e, n) ↦ rw (sym e, sym n) (refl, refl)
    | inr (e, n) ↦ rw (sym e, sym n) (refl, refl)
  ];
  above = λ c i h n. elim (items-cases c i h) [
    | inl (e, q) ↦ rw (sym e, sym q) ("1", refl, omega arith)
    | inr (e, q) ↦ rw (sym e, sym q) ("10", refl, omega arith)
  ];
}

abbrev bridge : Bridge memory.Doc
bridge = record { mapping = empty; doc = memory.empty_doc; saved = []; uuids = 0 }

bridge-IsReady : IsReady memory uuid default_roots bridge
unfolding get
bridge-IsReady = record {
  sound = record {
    bijective = record {
      forth = λ l c h. absurd (ground arith);
      back = λ c l h. absurd (ground arith);
    };
    present = λ l c h. absurd (ground arith);
    nonempty = λ l c h. absurd (ground arith);
    fresh = λ n h. refl;
  };
  named = λ c l h. absurd (ground arith);
  unused = λ n h. refl;
}

on_create_anchored_example :
    (b' : Bridge memory.Doc) × (on_create memory uuid default_roots get_item 2 bridge page_item
      ≡ some b')
    × ((l : String) × (e : BookmarkNode) × (get b'.mapping.chrome_to_loro "11" ≡ some l)
        × (get (memory.get_all_bookmarks b'.doc) l ≡ some e)
        × (e.title ≡ "Page")
        × IsAnchor memory uuid default_roots b' e.parent_id)
    × Keeps memory uuid default_roots bridge b'
    × IsReady memory uuid default_roots b'
    × (b'.saved ≡ save_mapping b'.mapping)
unfolding get contains
on_create_anchored_example =
    on_create_anchored memory uuid default_roots different uuid-nonempty get_item depth
      get_item-IsTree 2 bridge page_item page_item (omega arith) refl refl refl bridge-IsReady
