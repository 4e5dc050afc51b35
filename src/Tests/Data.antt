-- ===== src/Tests/Data.antt =====
-- A document library that keeps the bookmarks in a map, ids, and the browsers' trees of the examples.
use vaultmarks.Shared.{
  ℕ, zero, suc, String, Option, none, some, [], ◌≡◌, ◌==◌, false, refl, inl, inr, String-cases,
  arith, ap, sym, ◌∙◌,
}
use vaultmarks.Shared.Dict.{
  Dict, put, delete, KeysDistinct, get-put, get-delete, put-KeysDistinct, delete-KeysDistinct,
}
use vaultmarks.Bookmarks.Node.{BookmarkNode, Kind, Item, Tree, node, nil, cons}
use Prim.Native.String
use Prim.Native.String.count.{nil as count_nil, cons as count_cons}
use vaultmarks.Crdt.{Loro}

abbrev pub memory : Loro
memory = record {
  Doc = (d : Dict BookmarkNode) × KeysDistinct d;
  empty_doc = ([], tt);
  set_bookmark = λ id n d. (put d.0 id n, put-KeysDistinct d.0 id n d.1);
  delete_bookmark = λ id d. (delete d.0 id, delete-KeysDistinct d.0 id d.1);
  get_all_bookmarks = λ d. d.0;
  all-empty = refl;
  all-distinct = λ d. d.1;
  get-set = λ d id n k. get-put d.0 id n k;
  get-removed = λ d id k. get-delete d.0 id k;
}

abbrev pub uuid : ℕ → String
uuid zero = "u"
uuid (suc n) = String.◌∷◌ "+" (uuid n)

count-uuid : (n : ℕ) → String.count (uuid n) ≡ suc n
count-uuid zero = count_cons "u" "" ∙ ap suc count_nil
count-uuid (suc n) = count_cons "+" (uuid n) ∙ ap suc (count-uuid n)

pub different : (i j : ℕ) → uuid i ≡ uuid j → i ≡ j
different i j e = let both = sym (count-uuid i) ∙ ap String.count e ∙ count-uuid j in omega arith

pub unlike : (l : String) (n : ℕ) → String.count l ≡ 1 → (l == uuid (suc n)) ≡ false
unlike l n h = elim (String-cases l (uuid (suc n))) [
  | inl (e, t) ↦ absurd (let both = sym h ∙ ap String.count e ∙ count-uuid (suc n) in omega arith)
  | inr e ↦ e
]

-- Chrome's tree: a folder with a bookmark below the bookmarks bar, and a bookmark beside it.
abbrev entry : String → String → String → Option String → ℕ → Item
entry id parent title url index = record {
  id = id;
  parent_id = some parent;
  title = title;
  url = url;
  index = some index;
}

abbrev pub folder_item : Item
folder_item = entry "10" "1" "News" none 0

abbrev pub page_item : Item
page_item = entry "11" "10" "Page" (some "https://a.example") 0

abbrev pub other_item : Item
other_item = entry "12" "1" "Other" (some "https://b.example") 1

abbrev pub chrome_tree : Tree
chrome_tree =
    node (record { id = "0"; parent_id = none; title = ""; url = none; index = none })
      (cons
        (node (entry "1" "0" "Bar" none 0) (
          cons (node folder_item (cons (node page_item nil) nil)) (cons (node other_item nil) nil)))
        (cons (node (entry "2" "0" "More" none 1) nil) (
          cons
            (node (entry "99" "0" "Trash" none 2)
              (cons (node (entry "98" "99" "Old" none 0) nil) nil))
            nil)))

abbrev pub firefox_tree : Tree
firefox_tree =
    node (record { id = "root________"; parent_id = none; title = ""; url = none; index = none })
      (cons (node (entry "menu________" "root________" "Menu" none 0) nil) (
        cons (node (entry "toolbar_____" "root________" "Bar" none 1) nil)
          (cons (node (entry "unfiled_____" "root________" "More" none 2) nil) nil)))

abbrev pub folder_node : BookmarkNode
folder_node = record { title = "News"; url = none; parent_id = "1"; index = 0; kind = Kind.folder }

abbrev pub page_node : BookmarkNode
page_node = record {
  title = "Page";
  url = some "https://a.example";
  parent_id = "f";
  index = 0;
  kind = Kind.bookmark;
}

abbrev pub stray_node : BookmarkNode
stray_node = record {
  title = "Stray";
  url = some "https://c.example";
  parent_id = "gone";
  index = 1;
  kind = Kind.bookmark;
}

pub uuid-nonempty : (n : ℕ) → (uuid n == "") ≡ false
uuid-nonempty n = elim (String-cases (uuid n) "") [
  | inl (e, t) ↦
      absurd (let both = sym (count-uuid n) ∙ ap String.count e ∙ count_nil in omega arith)
  | inr e ↦ e
]
