-- ===== src/Bookmarks/Import/Keeps.antt =====
-- What an import keeps: the mapping's invariant and every entry of the server.
use vaultmarks.Shared.{
  ℕ, ◌≤◌, String, Bool, true, false, not, none, some, List, [], ◌∷◌, ◌==◌, ◌&&◌, or_else, ◌≡◌,
  arith, eq_iff, inl, inr, Bool-cases, Option-cases, contains, All,
}
use vaultmarks.Shared.Dict.{Dict, get, has}
use vaultmarks.Bookmarks.Node.{BookmarkNode, Item, truthy, to_node}
use vaultmarks.Bookmarks.Mapping.{Mapping, link}
use vaultmarks.Bookmarks.Mapping.Bijection.{IsBijective, link-IsBijective}
use vaultmarks.Bookmarks.Roots.{Roots, chrome_parent_to_loro}
use vaultmarks.Bookmarks.Offline.{Bridge}
use vaultmarks.Bookmarks.Offline.Phases.{IsSound, AreDifferent, get-link, linked-IsSound}
use vaultmarks.Bookmarks.Import.{
  Importing, matching_folder, append_index, append_item, place_item, import_item, import_items,
  merge_import_into_doc, urls, max_index,
}
use vaultmarks.Crdt.{Loro}

matched :
    (m : Mapping) (i : Item) (p : String) (es : Dict BookmarkNode) (l : String)
    → matching_folder m i p es ≡ some l
    → (get m.loro_to_chrome l ≡ none) × (has es l ≡ true)
unfolding matching_folder get
matched m i p [] l h = absurd (ground arith)
matched m i p ((k, n) ∷ es) l h = ground (arith, matched m i p es l, eq_iff k l)

module _ (L : Loro) (uuid : ℕ → String) (r : Roots) (different : AreDifferent uuid)
    (server before : Dict BookmarkNode)
    (part : (l : String) (n : BookmarkNode) → get server l ≡ some n → get before l ≡ some n) where
  -- The bridge is sound, the document still has every entry it had before, and no id that is still
  -- to be drawn.
  pub record IsKeeping (b : Bridge L.Doc) : Type 0 where
    pub sound : IsSound L uuid b
    pub kept :
        (l : String) (n : BookmarkNode)
        → get before l ≡ some n
        → get (L.get_all_bookmarks b.doc) l ≡ some n
    pub unused : (n : ℕ) → b.uuids ≤ n → get (L.get_all_bookmarks b.doc) (uuid n) ≡ none

  append_item-IsKeeping :
      (d : Dict ℕ) (p : String) (s : Importing L.Doc) (i : Item)
      → (i.id == "") ≡ false
      → has s.bridge.mapping.chrome_to_loro i.id ≡ false
      → IsKeeping s.bridge
      → IsKeeping (append_item L uuid r d p s i).bridge
  unfolding append_item
  append_item-IsKeeping d p s i ne new k =
      let b = s.bridge in
      let idx = append_index s.next_index d p in
      let n = record (to_node i p) { index = idx } in
      record {
        sound = linked-IsSound L uuid r different b i.id n ne new k.sound;
        kept = λ l m h. ground (
          arith,
          L.get-set b.doc (uuid b.uuids) n l,
          k.kept l m h,
          k.unused b.uuids (omega arith),
          eq_iff (uuid b.uuids) l,
        );
        unused = λ j h. ground (
          arith,
          L.get-set b.doc (uuid b.uuids) n (uuid j),
          k.unused j,
          different b.uuids j,
          eq_iff (uuid b.uuids) (uuid j),
        );
      }

  reused-IsKeeping :
      (b : Bridge L.Doc) (l c : String)
      → (c == "") ≡ false
      → get b.mapping.chrome_to_loro c ≡ none
      → get b.mapping.loro_to_chrome l ≡ none
      → has (L.get_all_bookmarks b.doc) l ≡ true
      → IsKeeping b
      → IsKeeping (record b { mapping = link l c b.mapping })
  reused-IsKeeping b l c ne new free there k = record {
    sound = record {
      bijective = link-IsBijective l c b.mapping k.sound.bijective free new;
      present = λ l' c' h.
          ground (arith, get-link l c b.mapping l', k.sound.present l' c', eq_iff l l', there);
      nonempty = λ l' c' h. ground (arith, get-link l c b.mapping l', k.sound.nonempty l' c');
      fresh = λ n h. ground (
        arith,
        get-link l c b.mapping (uuid n),
        k.sound.fresh n h,
        k.unused n h,
        eq_iff l (uuid n),
        there,
      );
    };
    kept = k.kept;
    unused = k.unused;
  }

  known :
      (b : Bridge L.Doc) (l : String)
      → has server l ≡ true
      → IsKeeping b
      → has (L.get_all_bookmarks b.doc) l ≡ true
  known b l h k = elim (Option-cases (get server l)) [
    | inl e ↦ absurd (ground (arith, e, h))
    | inr (n, e) ↦ ground (arith, k.kept l n (part l n e))
  ]

  module _ (exclude : Bool) where
    pub place_item-IsKeeping :
        (s : Importing L.Doc) (i : Item) (p : String)
        → (i.id == "") ≡ false
        → has s.bridge.mapping.chrome_to_loro i.id ≡ false
        → IsKeeping s.bridge
        → IsKeeping (place_item L uuid r exclude server s i p).bridge
    unfolding place_item
    place_item-IsKeeping s i p ne new k =
        let appended = append_item-IsKeeping (max_index L uuid r exclude server) p s i ne new k in
        elim (Bool-cases (not (truthy i.url) && exclude)) [
          | inr other ↦ rw (other, place_item) appended
          | inl folder ↦ elim (Option-cases (matching_folder s.bridge.mapping i p server)) [
            | inl e ↦ rw (folder, e, place_item) appended
            | inr (l, e) ↦
                let (free, there) = matched s.bridge.mapping i p server l e in
                elim (Bool-cases (l == "")) [
                  | inl blank ↦ rw (folder, e, blank, place_item) appended
                  | inr full ↦
                      rw (folder, e, full, place_item)
                        (reused-IsKeeping s.bridge l i.id ne (ground arith) free
                          (known s.bridge l there k) k)
                ]
          ]
        ]

    pub import_item-IsKeeping :
        (s : Importing L.Doc) (i : Item)
        → (i.id == "") ≡ false
        → IsKeeping s.bridge
        → IsKeeping (import_item L uuid r exclude server s i).bridge
    unfolding import_item
    import_item-IsKeeping s i ne k = elim (Bool-cases (has s.bridge.mapping.chrome_to_loro i.id)) [
      | inl old ↦ rw (old, import_item) k
      | inr new ↦
          elim (Bool-cases (
            truthy i.url
            && (exclude && contains (urls L uuid r exclude server) (or_else i.url "")))) [
              | inl skip ↦ rw (new, skip, import_item) k
              | inr take ↦
                  rw (new, take, import_item)
                    (place_item-IsKeeping s i
                      (chrome_parent_to_loro r s.bridge.mapping (or_else i.parent_id "1")) ne new k)
            ]
    ]

    pub import_items-IsKeeping :
        (s : Importing L.Doc) (is : List Item)
        → All (λ i. (i.id == "") ≡ false) is
        → IsKeeping s.bridge
        → IsKeeping (import_items L uuid r exclude server s is).bridge
    unfolding import_items
    import_items-IsKeeping s [] ne k = k
    import_items-IsKeeping s (i ∷ is) ne k =
        import_items-IsKeeping (import_item L uuid r exclude server s i) is ne.1
          (import_item-IsKeeping s i ne.0 k)

module _ (L : Loro) (uuid : ℕ → String) (r : Roots) (different : AreDifferent uuid) (exclude : Bool)
    (visit_order : List Item) (named : All (λ i. (i.id == "") ≡ false) visit_order)
    (b : Bridge L.Doc) (sound : IsSound L uuid b)
    (unused : (n : ℕ) → b.uuids ≤ n → get (L.get_all_bookmarks b.doc) (uuid n) ≡ none) where
  -- For any document library with the behaviour of a map, ids that are drawn at random and stand
  -- neither in the mapping nor in the document, a bridge whose mapping is a bijection into the
  -- document, and visited nodes with non-empty ids: `mergeImportIntoDoc`, in both modes, keeps every
  -- entry of the document as it is, and its mapping is a bijection into the document.
  pub merge_import_keeps :
      ((l : String) (n : BookmarkNode)
        → get (L.get_all_bookmarks b.doc) l ≡ some n
        → get (L.get_all_bookmarks (merge_import_into_doc L uuid r exclude visit_order b).doc) l
          ≡ some n)
      × IsBijective (merge_import_into_doc L uuid r exclude visit_order b).mapping
      × ((l c : String)
          → get (merge_import_into_doc L uuid r exclude visit_order b).mapping.loro_to_chrome l
            ≡ some c
          → has (L.get_all_bookmarks (merge_import_into_doc L uuid r exclude visit_order b).doc) l
            ≡ true)
  unfolding merge_import_into_doc
  merge_import_keeps =
      let k =
        import_items-IsKeeping L uuid r different (L.get_all_bookmarks b.doc)
          (L.get_all_bookmarks b.doc) (λ l n h. h) exclude (record { bridge = b; next_index = [] })
          visit_order named (record { sound = sound; kept = λ l n h. h; unused = unused }) in
      (k.kept, k.sound.bijective, k.sound.present)
