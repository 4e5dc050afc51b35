-- ===== src/Bookmarks/Offline/Phases.antt =====
-- The three steps of the merge of offline changes, one after the other.
use vaultmarks.Shared.{
  ℕ, suc, ◌≤◌, String, true, false, none, some, List, [], ◌∷◌, ◌==◌, if◌then◌else◌, or_else, ◌≡◌,
  ◌⊎◌, arith, eq_iff, inl, inr, Bool-cases, All,
}
use vaultmarks.Shared.Dict.{Dict, get, has, put, get-put, get-delete}
use vaultmarks.Bookmarks.Node.{BookmarkNode, Item, to_node}
use vaultmarks.Bookmarks.Mapping.{Mapping, link, unlink}
use vaultmarks.Bookmarks.Mapping.Bijection.{IsBijective, link-IsBijective}
use vaultmarks.Bookmarks.Roots.{Roots, chrome_parent_to_loro}
use vaultmarks.Crdt.{Loro}
use vaultmarks.Bookmarks.Offline.{Bridge, index_items, add_new, add_all_new}

pub get-link :
    (l c : String) (m : Mapping) (k : String)
    → get (link l c m).loro_to_chrome k ≡ (if l == k then some c else get m.loro_to_chrome k)
unfolding link
get-link l c m k = get-put m.loro_to_chrome l c k

pub back-link :
    (l c : String) (m : Mapping) (k : String)
    → get (link l c m).chrome_to_loro k ≡ (if c == k then some l else get m.chrome_to_loro k)
unfolding link
back-link l c m k = get-put m.chrome_to_loro c l k

pub get-unlink :
    (l c : String) (m : Mapping) (k : String)
    → get (unlink l c m).loro_to_chrome k ≡ (if l == k then none else get m.loro_to_chrome k)
unfolding unlink
get-unlink l c m k = get-delete m.loro_to_chrome l k

pub back-unlink :
    (l c : String) (m : Mapping) (k : String)
    → get (unlink l c m).chrome_to_loro k ≡ (if c == k then none else get m.chrome_to_loro k)
unfolding unlink
back-unlink l c m k = get-delete m.chrome_to_loro c k

-- What the database and the random ids give the bridge: the mapping is a bijection without empty
-- ids, each mapped entry is in the document, and the ids still to be drawn are new.
pub record IsSound (L : Loro) (uuid : ℕ → String) (b : Bridge L.Doc) : Type 0 where
  pub bijective : IsBijective b.mapping
  pub present :
      (l c : String)
      → get b.mapping.loro_to_chrome l ≡ some c
      → has (L.get_all_bookmarks b.doc) l ≡ true
  pub nonempty : (l c : String) → get b.mapping.loro_to_chrome l ≡ some c → (c == "") ≡ false
  pub fresh : (n : ℕ) → b.uuids ≤ n → get b.mapping.loro_to_chrome (uuid n) ≡ none

abbrev pub AreDifferent : (ℕ → String) → Type 0
AreDifferent uuid = (i j : ℕ) → uuid i ≡ uuid j → i ≡ j

module _ (L : Loro) (uuid : ℕ → String) (r : Roots) (different : AreDifferent uuid) where
  added_fresh :
      (b : Bridge L.Doc) (c : String) (n : ℕ)
      → IsSound L uuid b
      → suc b.uuids ≤ n
      → get (link (uuid b.uuids) c b.mapping).loro_to_chrome (uuid n) ≡ none
  added_fresh b c n s h = ground (
    arith,
    get-link (uuid b.uuids) c b.mapping (uuid n),
    s.fresh n,
    different b.uuids n,
    eq_iff (uuid b.uuids) (uuid n),
  )

  -- A new entry of the document for a node that is not mapped.
  pub linked-IsSound :
      (b : Bridge L.Doc) (c : String) (n : BookmarkNode)
      → (c == "") ≡ false
      → has b.mapping.chrome_to_loro c ≡ false
      → IsSound L uuid b
      → IsSound L uuid (record b {
        mapping = link (uuid b.uuids) c b.mapping;
        doc = L.set_bookmark (uuid b.uuids) n b.doc;
        uuids = suc b.uuids;
      })
  linked-IsSound b c n ne unknown s = record {
    bijective =
        link-IsBijective (uuid b.uuids) c b.mapping s.bijective (s.fresh b.uuids (omega arith))
          (ground arith);
    present = λ l c' h. ground (
      arith,
      L.get-set b.doc (uuid b.uuids) n l,
      get-link (uuid b.uuids) c b.mapping l,
      s.present l c',
    );
    nonempty = λ l c' h. ground (arith, get-link (uuid b.uuids) c b.mapping l, s.nonempty l c');
    fresh = λ k h. added_fresh b c k s h;
  }

  pub add_new-IsSound :
      (b : Bridge L.Doc) (i : Item)
      → (i.id == "") ≡ false
      → IsSound L uuid b
      → IsSound L uuid (add_new L uuid r b i)
  unfolding add_new
  add_new-IsSound b i ne s = elim (Bool-cases (has b.mapping.chrome_to_loro i.id)) [
    | inl known ↦ rw (known, add_new) s
    | inr unknown ↦
        rw (unknown, add_new)
          (linked-IsSound b i.id
            (to_node i (chrome_parent_to_loro r b.mapping (or_else i.parent_id "1"))) ne unknown s)
  ]

  add_new-known :
      (b : Bridge L.Doc) (i : Item) (c : String)
      → (has b.mapping.chrome_to_loro c ≡ true) ⊎ (i.id ≡ c)
      → has (add_new L uuid r b i).mapping.chrome_to_loro c ≡ true
  unfolding add_new
  add_new-known b i c h = ground (arith, back-link (uuid b.uuids) i.id b.mapping c, eq_iff i.id c)

  pub add_all_new-IsSound :
      (b : Bridge L.Doc) (is : List Item)
      → All (λ i. (i.id == "") ≡ false) is
      → IsSound L uuid b
      → IsSound L uuid (add_all_new L uuid r b is)
  unfolding add_all_new
  add_all_new-IsSound b [] ne s = s
  add_all_new-IsSound b (i ∷ is) ne s =
      add_all_new-IsSound (add_new L uuid r b i) is ne.1 (add_new-IsSound b i ne.0 s)

  -- After step 1 every visited node is mapped.
  pub add_all_new-known :
      (b : Bridge L.Doc) (is : List Item) (d : Dict Item) (c : String)
      → (has d c ≡ true → has b.mapping.chrome_to_loro c ≡ true)
      → has (index_items d is) c ≡ true
      → has (add_all_new L uuid r b is).mapping.chrome_to_loro c ≡ true
  unfolding add_all_new index_items
  add_all_new-known b [] d c h g = h g
  add_all_new-known b (i ∷ is) d c h g =
      add_all_new-known (add_new L uuid r b i) is (put d i.id i) c
        (λ k. add_new-known b i c (ground (arith, get-put d i.id i c, eq_iff i.id c))) g
