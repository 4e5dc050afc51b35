-- ===== src/Bookmarks/Import/Bootstrap.antt =====
-- Nodes that an import meets for the first time, and `bootstrapFromChrome`, which maps them all.
use vaultmarks.Shared.{
  ℕ, String, true, false, some, List, [], ◌∷◌, ◌==◌, ◌≡◌, arith, refl, eq_iff, or_else, All,
}
use vaultmarks.Shared.Dict.{get, has}
use vaultmarks.Bookmarks.Node.{Item, to_node}
use vaultmarks.Bookmarks.Mapping.{Mapping, link, save_mapping}
use vaultmarks.Bookmarks.Mapping.Bijection.{IsBijective}
use vaultmarks.Bookmarks.Roots.{Roots, chrome_parent_to_loro}
use vaultmarks.Bookmarks.Offline.{Bridge}
use vaultmarks.Bookmarks.Offline.Phases.{IsSound, AreDifferent, back-link, linked-IsSound}
use vaultmarks.Bookmarks.Import.{seed, seed_all, bootstrap_from_chrome}
use vaultmarks.Crdt.{Loro}

-- The ids are different from one another, and none is mapped.
abbrev pub AreNew : Mapping → List Item → Type 0
AreNew m [] = Unit
AreNew m (i ∷ is) =
    (has m.chrome_to_loro i.id ≡ false) × All (λ j. (i.id == j.id) ≡ false) is × AreNew m is

pub link-unmapped :
    (m : Mapping) (l i c : String)
    → (i == c) ≡ false
    → has m.chrome_to_loro c ≡ false
    → has (link l i m).chrome_to_loro c ≡ false
link-unmapped m l i c ne new = ground (arith, back-link l i m c, ne, new)

link-AreNew :
    (m : Mapping) (l i : String) (is : List Item)
    → All (λ j. (i == j.id) ≡ false) is
    → AreNew m is
    → AreNew (link l i m) is
link-AreNew m l i [] ne new = tt
link-AreNew m l i (j ∷ is) ne new =
    (link-unmapped m l i j.id ne.0 new.0, new.1, link-AreNew m l i is ne.1 new.2)

module _ (L : Loro) (uuid : ℕ → String) (r : Roots) (different : AreDifferent uuid) where
  seed_all-IsSound :
      (b : Bridge L.Doc) (is : List Item)
      → All (λ i. (i.id == "") ≡ false) is
      → AreNew b.mapping is
      → IsSound L uuid b
      → IsSound L uuid (seed_all L uuid r b is)
  unfolding seed_all seed
  seed_all-IsSound b [] ne new s = s
  seed_all-IsSound b (i ∷ is) ne (fresh, apart, news) s =
      seed_all-IsSound (seed L uuid r b i) is ne.1
        (link-AreNew b.mapping (uuid b.uuids) i.id is apart news)
        (linked-IsSound L uuid r different b i.id
          (to_node i (chrome_parent_to_loro r b.mapping (or_else i.parent_id "1"))) ne.0 fresh s)

  seed_all-mapped :
      (b : Bridge L.Doc) (is : List Item) (c : String)
      → has b.mapping.chrome_to_loro c ≡ true
      → has (seed_all L uuid r b is).mapping.chrome_to_loro c ≡ true
  unfolding seed_all seed
  seed_all-mapped b [] c h = h
  seed_all-mapped b (i ∷ is) c h =
      seed_all-mapped (seed L uuid r b i) is c
        (ground (arith, h, back-link (uuid b.uuids) i.id b.mapping c))

  All-mapped :
      (b : Bridge L.Doc) (is : List Item)
      → All (λ i. has (seed_all L uuid r b is).mapping.chrome_to_loro i.id ≡ true) is
  unfolding seed_all seed
  All-mapped b [] = tt
  All-mapped b (i ∷ is) = (
    seed_all-mapped (seed L uuid r b i) is i.id
        (ground (arith, back-link (uuid b.uuids) i.id b.mapping i.id, eq_iff i.id i.id)),
    All-mapped (seed L uuid r b i) is,
  )

  -- For ids that are drawn at random and new, a bridge whose mapping is a bijection into the
  -- document, and visited nodes with non-empty ids, different from one another and not mapped:
  -- `bootstrapFromChrome` maps every visited node, and its mapping is a bijection into the document,
  -- which it saves.
  pub bootstrap_maps :
      (b : Bridge L.Doc) (visit_order : List Item)
      → All (λ i. (i.id == "") ≡ false) visit_order
      → AreNew b.mapping visit_order
      → IsSound L uuid b
      → All
          (λ i.
            has (bootstrap_from_chrome L uuid r visit_order b).0.mapping.chrome_to_loro i.id ≡ true)
          visit_order
        × IsBijective (bootstrap_from_chrome L uuid r visit_order b).0.mapping
        × ((l c : String)
            → get (bootstrap_from_chrome L uuid r visit_order b).0.mapping.loro_to_chrome l ≡ some c
            → has (L.get_all_bookmarks (bootstrap_from_chrome L uuid r visit_order b).0.doc) l
              ≡ true)
        × ((bootstrap_from_chrome L uuid r visit_order b).0.saved
            ≡ save_mapping (bootstrap_from_chrome L uuid r visit_order b).0.mapping)
  unfolding bootstrap_from_chrome
  bootstrap_maps b visit_order ne new s =
      let k = seed_all-IsSound b visit_order ne new s in
      (All-mapped b visit_order, k.bijective, k.present, refl)
