-- ===== src/Bookmarks/Import/Urls.antt =====
-- After an import the document has every URL of the browser.
use vaultmarks.Shared.{
  ℕ, ◌≤◌, String, Bool, true, false, not, Option, none, some, List, [], ◌∷◌, ◌==◌, ◌&&◌, or_else,
  ◌≡◌, refl, arith, eq_iff, inl, inr, Bool-cases, Option-cases, contains, All,
}
use vaultmarks.Shared.Dict.{Dict, get, has, KeysDistinct}
use vaultmarks.Bookmarks.Node.{BookmarkNode, Item, truthy, to_node}
use vaultmarks.Bookmarks.Roots.{Roots, chrome_parent_to_loro}
use vaultmarks.Bookmarks.Offline.{Bridge}
use vaultmarks.Bookmarks.Offline.Phases.{IsSound, AreDifferent}
use vaultmarks.Bookmarks.Import.{
  Importing, chrome_urls, server_urls, compute_local_import_diff, append_index, append_item,
  place_item, import_item, import_items, merge_import_into_doc, urls, max_index, matching_folder,
}
use vaultmarks.Bookmarks.Import.Diff.{HasUrl, All-chrome_urls, none_missing, contained, found_url}
use vaultmarks.Bookmarks.Import.Bootstrap.{AreNew, link-unmapped}
use vaultmarks.Bookmarks.Import.Keeps.{IsKeeping, import_item-IsKeeping, import_items-IsKeeping}
use vaultmarks.Crdt.{Loro}

module _ (L : Loro) (uuid : ℕ → String) (r : Roots) (exclude : Bool)
    (server : Dict BookmarkNode) where
  -- One round maps no other node.
  place_item-unmapped :
      (s : Importing L.Doc) (i : Item) (p c : String)
      → (i.id == c) ≡ false
      → has s.bridge.mapping.chrome_to_loro c ≡ false
      → has (place_item L uuid r exclude server s i p).bridge.mapping.chrome_to_loro c ≡ false
  unfolding place_item append_item
  place_item-unmapped s i p c ne new =
      let m = s.bridge.mapping in
      let appended = link-unmapped m (uuid s.bridge.uuids) i.id c ne new in
      elim (Bool-cases (not (truthy i.url) && exclude)) [
        | inr other ↦ rw (other, place_item) appended
        | inl folder ↦ elim (Option-cases (matching_folder m i p server)) [
          | inl e ↦ rw (folder, e, place_item) appended
          | inr (l, e) ↦ elim (Bool-cases (l == "")) [
            | inl blank ↦ rw (folder, e, blank, place_item) appended
            | inr full ↦ rw (folder, e, full, place_item) (link-unmapped m l i.id c ne new)
          ]
        ]
      ]

  import_item-unmapped :
      (s : Importing L.Doc) (i : Item) (c : String)
      → (i.id == c) ≡ false
      → has s.bridge.mapping.chrome_to_loro c ≡ false
      → has (import_item L uuid r exclude server s i).bridge.mapping.chrome_to_loro c ≡ false
  unfolding import_item
  import_item-unmapped s i c ne new =
      let p = chrome_parent_to_loro r s.bridge.mapping (or_else i.parent_id "1") in
      ground (arith, new, place_item-unmapped s i p c ne new)

  import_item-AreNew :
      (s : Importing L.Doc) (i : Item) (is : List Item)
      → All (λ j. (i.id == j.id) ≡ false) is
      → AreNew s.bridge.mapping is
      → AreNew (import_item L uuid r exclude server s i).bridge.mapping is
  import_item-AreNew s i [] ne new = tt
  import_item-AreNew s i (j ∷ is) ne new =
      (import_item-unmapped s i j.id ne.0 new.0, new.1, import_item-AreNew s i is ne.1 new.2)

  -- A node with a URL that is not skipped gets an entry of its own.
  taken :
      (s : Importing L.Doc) (i : Item) {u : String}
      → has s.bridge.mapping.chrome_to_loro i.id ≡ false
      → i.url ≡ some u
      → (u == "") ≡ false
      → (exclude && contains (urls L uuid r exclude server) u) ≡ false
      → import_item L uuid r exclude server s i
        ≡ append_item L uuid r
            (max_index L uuid r exclude server)
            (chrome_parent_to_loro r s.bridge.mapping (or_else i.parent_id "1"))
            s
            i
  unfolding import_item place_item
  taken s i {u} new e ne take =
      rw (new, not_skipped e ne take, not_folder e ne, import_item, place_item)
    where
      not_skipped :
          {o : Option String} {u : String}
          → o ≡ some u
          → (u == "") ≡ false
          → (exclude && contains (urls L uuid r exclude server) u) ≡ false
          → (truthy o && (exclude && contains (urls L uuid r exclude server) (or_else o "")))
            ≡ false
      not_skipped e ne take = rw (e, ne, take) refl

      not_folder :
          {o : Option String} {u : String}
          → o ≡ some u
          → (u == "") ≡ false
          → (not (truthy o) && exclude) ≡ false
      not_folder e ne = rw (e, ne) refl

  taken_url :
      (s : Importing L.Doc) (i : Item) (p : String) (d : Dict ℕ) {u : String}
      → i.url ≡ some u
      → HasUrl (L.get_all_bookmarks (append_item L uuid r d p s i).bridge.doc) u
  unfolding append_item to_node
  taken_url s i p d e =
      let n = record (to_node i p) { index = append_index s.next_index d p } in
      (
        uuid s.bridge.uuids,
        n,
        ground (
          arith,
          L.get-set s.bridge.doc (uuid s.bridge.uuids) n (uuid s.bridge.uuids),
          eq_iff (uuid s.bridge.uuids) (uuid s.bridge.uuids),
        ),
        e,
      )

module _ (L : Loro) (uuid : ℕ → String) (r : Roots) (different : AreDifferent uuid) (exclude : Bool)
    (server : Dict BookmarkNode) (distinct : KeysDistinct server) where
  abbrev KeptBy : Importing L.Doc → Type 0
  KeptBy s = IsKeeping L uuid r different server server (λ l n h. h) s.bridge

  -- A later round keeps the URLs that the document has.
  later_url :
      (s : Importing L.Doc) (is : List Item)
      → All (λ i. (i.id == "") ≡ false) is
      → KeptBy s
      → (u : String) → HasUrl (L.get_all_bookmarks s.bridge.doc) u
      → HasUrl (L.get_all_bookmarks (import_items L uuid r exclude server s is).bridge.doc) u
  later_url s is ne k u (l, n, e, v) =
      let k' =
        import_items-IsKeeping L uuid r different server (L.get_all_bookmarks s.bridge.doc) k.kept
          exclude s is ne (record { sound = k.sound; kept = λ l n h. h; unused = k.unused }) in
      (l, n, k'.kept l n e, v)

  item_url :
      (s : Importing L.Doc) (i : Item)
      → (i.id == "") ≡ false
      → has s.bridge.mapping.chrome_to_loro i.id ≡ false
      → KeptBy s
      → (u : String) → i.url ≡ some u
      → (u == "") ≡ false
      → HasUrl (L.get_all_bookmarks (import_item L uuid r exclude server s i).bridge.doc) u
  item_url s i named new k u e ne =
      elim (Bool-cases (exclude && contains (urls L uuid r exclude server) u)) [
        | inr take ↦ rw (taken L uuid r exclude server s i new e ne take) (
            taken_url L uuid r exclude server s i
              (chrome_parent_to_loro r s.bridge.mapping (or_else i.parent_id "1"))
              (max_index L uuid r exclude server) e)
        | inl skip ↦ elim (found_url [] server u distinct (ground (arith, skip))) [
          | inl nothing ↦ absurd (unfold contains in ground (arith, nothing))
          | inr (l, n, e', v) ↦
              let k' =
                import_item-IsKeeping L uuid r different server server (λ l n h. h) exclude s i
                  named k in
              (l, n, k'.kept l n e', v)
        ]
      ]

  All-urls :
      (s : Importing L.Doc) (is : List Item)
      → All (λ i. (i.id == "") ≡ false) is
      → AreNew s.bridge.mapping is
      → KeptBy s
      → All
          (λ i.
            (u : String)
            → i.url ≡ some u
            → (u == "") ≡ false
            → HasUrl (L.get_all_bookmarks (import_items L uuid r exclude server s is).bridge.doc) u)
          is
  unfolding import_items
  All-urls s [] ne new k = tt
  All-urls s (i ∷ is) ne (new, apart, news) k =
      let k' =
        import_item-IsKeeping L uuid r different server server (λ l n h. h) exclude s i ne.0 k in
      let s' = import_item L uuid r exclude server s i in
      (
        (λ u e full. later_url s' is ne.1 k' u (item_url s i ne.0 new k u e full)),
        All-urls s' is ne.1 (import_item-AreNew L uuid r exclude server s i is apart news) k',
      )

All-map : {P Q : Item → Type 0} (is : List Item) → ((i : Item) → P i → Q i) → All P is → All Q is
All-map [] f a = tt
All-map (i ∷ is) f a = (f i a.0, All-map is f a.1)

module _ (L : Loro) (uuid : ℕ → String) (r : Roots) (different : AreDifferent uuid) (exclude : Bool)
    (visit_order : List Item) (named : All (λ i. (i.id == "") ≡ false) visit_order)
    (b : Bridge L.Doc) (sound : IsSound L uuid b)
    (unused : (n : ℕ) → b.uuids ≤ n → get (L.get_all_bookmarks b.doc) (uuid n) ≡ none)
    (new : AreNew b.mapping visit_order) where
  -- Under the conditions of `merge_import_keeps`, for visited nodes whose ids differ from one another
  -- and of which none is mapped: after `mergeImportIntoDoc`, in both modes, `computeLocalImportDiff`
  -- over the same nodes finds no URL that only the browser has.
  pub import_settles :
      (compute_local_import_diff visit_order
        (L.get_all_bookmarks (merge_import_into_doc L uuid r exclude visit_order b).doc)).local_only
      ≡ 0
  unfolding merge_import_into_doc compute_local_import_diff
  import_settles =
      let server = L.get_all_bookmarks b.doc in
      let s =
        import_items L uuid r exclude server (record { bridge = b; next_index = [] }) visit_order in
      let there = server_urls [] (L.get_all_bookmarks s.bridge.doc) in
      none_missing there (chrome_urls [] visit_order) (
        All-chrome_urls there [] visit_order tt (
          All-map
            {P = λ i.
              (u : String)
              → i.url ≡ some u
              → (u == "") ≡ false
              → HasUrl (L.get_all_bookmarks s.bridge.doc) u}
            {Q = λ i. (u : String) → i.url ≡ some u → (u == "") ≡ false → contains there u ≡ true}
            visit_order
            (λ i h u e full.
              contained [] (L.get_all_bookmarks s.bridge.doc) u (inr (h u e full, full)))
            (All-urls L uuid r different exclude server (L.all-distinct b.doc)
              (record { bridge = b; next_index = [] }) visit_order named new
              (record { sound = sound; kept = λ l n h. h; unused = unused }))))
