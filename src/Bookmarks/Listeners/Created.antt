-- ===== src/Bookmarks/Listeners/Created.antt =====
-- The listener for a new bookmark and `ensureAncestorsMapped` of extension/src/bookmarks/bridge.ts.
use vaultmarks.Shared.{
  ℕ, zero, suc, ◌≤◌, ◌<◌, String, true, false, List, Option, none, some, or_else, ◌==◌, ◌≡◌, refl,
  arith, eq_iff, inl, inr, ◌⊎◌, Bool-cases, Option-cases,
}
use vaultmarks.Shared.Dict.{get, has}
use vaultmarks.Bookmarks.Node.{BookmarkNode, Item, to_node}
use vaultmarks.Bookmarks.Mapping.{save_mapping}
use vaultmarks.Bookmarks.Roots.{Roots, is_any_root_id}
use vaultmarks.Bookmarks.Walk.{is_beside_roots}
use vaultmarks.Bookmarks.Offline.{Bridge}
use vaultmarks.Bookmarks.Offline.Phases.{IsSound, AreDifferent, back-link, linked-IsSound}
use vaultmarks.Bookmarks.Listeners.{loro_id_of}
use vaultmarks.Bookmarks.Listeners.Create.{
  map_new, map_folder, map_created, ensure_ancestors_mapped, on_create,
}
use vaultmarks.Crdt.{Loro}

-- What the browser's answers are like: an item has the id that was asked for, and one that is no
-- root has a parent nearer to the roots.
pub record IsTree (r : Roots) (get_item : String → Option Item) (depth : String → ℕ) : Type 0 where
  pub same : (c : String) (i : Item) → get_item c ≡ some i → (i.id ≡ c) × ((c == "") ≡ false)
  pub above :
      (c : String) (i : Item)
      → get_item c ≡ some i
      → is_any_root_id r c ≡ false
      → (p : String) × (i.parent_id ≡ some p) × (depth p < depth c)

module _ (L : Loro) (uuid : ℕ → String) (r : Roots) where
  -- The mapping is a bijection into the document, no document id is empty, and the ids that are yet
  -- to be drawn are new.
  pub record IsReady (b : Bridge L.Doc) : Type 0 where
    pub sound : IsSound L uuid b
    pub named : (c l : String) → get b.mapping.chrome_to_loro c ≡ some l → (l == "") ≡ false
    pub unused : (n : ℕ) → b.uuids ≤ n → has (L.get_all_bookmarks b.doc) (uuid n) ≡ false

  -- A canonical root, or an entry of the document.
  abbrev pub IsAnchor : Bridge L.Doc → String → Type 0
  IsAnchor b l =
      ((p : String) × (is_any_root_id r p ≡ true) × (or_else (get r.native_to_canonical p) p ≡ l))
      ⊎ (l ≡ "2")
      ⊎ (has (L.get_all_bookmarks b.doc) l ≡ true)

  -- Entries of the document stay as they are.
  abbrev pub Keeps : Bridge L.Doc → Bridge L.Doc → Type 0
  Keeps b b' =
      (k : String)
      → has (L.get_all_bookmarks b.doc) k ≡ true
      → get (L.get_all_bookmarks b'.doc) k ≡ get (L.get_all_bookmarks b.doc) k

  module _ (different : AreDifferent uuid) (nonempty : (n : ℕ) → (uuid n == "") ≡ false) where
    map_new-IsReady :
        (get_item : String → Option Item) (b : Bridge L.Doc) (c : String) (n : BookmarkNode)
        → (c == "") ≡ false
        → has b.mapping.chrome_to_loro c ≡ false
        → IsReady b
        → IsReady (map_new L uuid r get_item b c n)
    map_new-IsReady g b c n ne new k = record {
      sound = linked-IsSound L uuid r different b c n ne new k.sound;
      named = λ c' l h.
          ground (arith, back-link (uuid b.uuids) c b.mapping c', k.named c' l, nonempty b.uuids);
      unused = λ i h. ground (
        arith,
        L.get-set b.doc (uuid b.uuids) n (uuid i),
        k.unused i,
        different b.uuids i,
        eq_iff (uuid b.uuids) (uuid i),
      );
    }

    map_new-Keeps :
        (get_item : String → Option Item) (b : Bridge L.Doc) (c : String) (n : BookmarkNode)
        → IsReady b
        → Keeps b (map_new L uuid r get_item b c n)
    map_new-Keeps g b c n k l h = ground (
      arith,
      L.get-set b.doc (uuid b.uuids) n l,
      k.unused b.uuids (omega arith),
      h,
      eq_iff (uuid b.uuids) l,
    )

    -- What is saved does not matter to it.
    saved-IsReady :
        (b : Bridge L.Doc) (rows : List (String × String))
        → IsReady b
        → IsReady (record b { saved = rows })
    saved-IsReady b rows k = record {
      sound = record {
        bijective = k.sound.bijective;
        present = k.sound.present;
        nonempty = k.sound.nonempty;
        fresh = k.sound.fresh;
      };
      named = k.named;
      unused = k.unused;
    }

    no_id-new :
        (b : Bridge L.Doc) (c : String)
        → IsReady b
        → loro_id_of b.mapping c ≡ none
        → has b.mapping.chrome_to_loro c ≡ false
    unfolding loro_id_of
    no_id-new b c k h = elim (Option-cases (get b.mapping.chrome_to_loro c)) [
      | inl e ↦ ground (arith, e)
      | inr (l, e) ↦ let n = k.named c l e in ground (arith, h, e, n)
    ]

    loro_id_of-some :
        (b : Bridge L.Doc) (c l : String)
        → loro_id_of b.mapping c ≡ some l
        → get b.mapping.chrome_to_loro c ≡ some l
    unfolding loro_id_of
    loro_id_of-some b c l h = ground (arith, h)

    module _ (get_item : String → Option Item) (depth : String → ℕ)
        (tree : IsTree r get_item depth) where
      -- What the walk up from a folder leaves: new entries only, and mapped only what is not deeper.
      record IsAnchoring (b : Bridge L.Doc) (id : String) (s : String × Bridge L.Doc) : Type 0 where
        ready : IsReady s.1
        anchor : IsAnchor s.1 s.0
        keeps : Keeps b s.1
        only :
            (c : String)
            → has s.1.mapping.chrome_to_loro c ≡ true
            → (has b.mapping.chrome_to_loro c ≡ true) ⊎ (depth c ≤ depth id)

      stays-IsAnchoring :
          (b : Bridge L.Doc) (id l : String) → IsReady b → IsAnchor b l → IsAnchoring b id (l, b)
      stays-IsAnchoring b id l k a = record {
        ready = k;
        anchor = a;
        keeps = λ x h. refl;
        only = λ c h. inl h;
      }

      map_folder-IsAnchoring :
          (b : Bridge L.Doc) (id p : String) (i : Item) (s : String × Bridge L.Doc)
          → get_item id ≡ some i
          → depth p < depth id
          → has b.mapping.chrome_to_loro id ≡ false
          → IsAnchoring b p s
          → IsAnchoring b id (map_folder L uuid r get_item i s)
      map_folder-IsAnchoring b id p i (l, b') e less new a =
          let (same, ne) = tree.same id i e in
          let n = to_node i l in
          let unmapped : has b'.mapping.chrome_to_loro i.id ≡ false =
            ground (arith, a.only id, same, new, less) in
          record {
            ready = map_new-IsReady get_item b' i.id n (ground (arith, same, ne)) unmapped a.ready;
            anchor = inr (
                inr (
                  ground (
                    arith,
                    L.get-set b'.doc (uuid b'.uuids) n (uuid b'.uuids),
                    eq_iff (uuid b'.uuids) (uuid b'.uuids),
                  )));
            keeps = λ k h. ground (arith, map_new-Keeps get_item b' i.id n a.ready k, a.keeps k, h);
            only = λ c h. ground (
              arith,
              back-link (uuid b'.uuids) i.id b'.mapping c,
              a.only c,
              h,
              same,
              less,
              eq_iff i.id c,
            );
          }

      ensure-IsAnchoring :
          (fuel : ℕ) (b : Bridge L.Doc) (id : String)
          → depth id < fuel
          → IsReady b
          → (s : String × Bridge L.Doc) × (ensure_ancestors_mapped L uuid r get_item fuel b id
              ≡ some s)
            × IsAnchoring b id s
      unfolding ensure_ancestors_mapped
      ensure-IsAnchoring zero b id h k = absurd (omega arith)
      ensure-IsAnchoring (suc fuel) b id h k = elim (Bool-cases (is_any_root_id r id)) [
        | inl root ↦ (
          _,
          rw (root, ensure_ancestors_mapped) refl,
          stays-IsAnchoring b id _ k (inl (id, root, refl)),
        )
        | inr inner ↦ elim (Option-cases (loro_id_of b.mapping id)) [
          | inr (l, e) ↦ (
            _,
            rw (inner, e, ensure_ancestors_mapped) refl,
            stays-IsAnchoring b id l k (
                inr (
                  inr (
                    ground (
                      arith,
                      k.sound.present l id,
                      k.sound.bijective.back id l (loro_id_of-some b id l e),
                    )))),
          )
          | inl e ↦ elim (Option-cases (get_item id)) [
            | inl gone ↦ (
              _,
              rw (inner, e, gone, ensure_ancestors_mapped) refl,
              stays-IsAnchoring b id "2" k (inr (inl refl)),
            )
            | inr (i, found) ↦ elim (Bool-cases (is_beside_roots r i)) [
              | inl beside ↦ (
                _,
                rw (inner, e, found, beside, ensure_ancestors_mapped) refl,
                stays-IsAnchoring b id "2" k (inr (inl refl)),
              )
              | inr below ↦
                  let (p, at, less) = tree.above id i found inner in
                  let (s, runs, a) = ensure-IsAnchoring fuel b p (omega arith) k in
                  (
                    _,
                    rw (inner, e, found, below, at, runs, ensure_ancestors_mapped) refl,
                    map_folder-IsAnchoring b id p i s found less (no_id-new b id k e) a,
                  )
            ]
          ]
        ]
      ]

      -- For random ids that are not empty, different from one another and new, a mapping that is a
      -- bijection into the document, and a browser that answers with the item that it is asked for
      -- and puts every item that is no root below one that is nearer to the roots: the listener for
      -- a new bookmark, with fuel for the way up to the roots, ends; the bookmark is mapped to an
      -- entry whose parent is a canonical root or an entry itself, every other entry is as it was,
      -- and the mapping, which is saved, is a bijection into the document again.
      pub on_create_anchored :
          (fuel : ℕ) (b : Bridge L.Doc) (n live : Item)
          → depth n.id ≤ fuel
          → is_any_root_id r n.id ≡ false
          → has b.mapping.chrome_to_loro n.id ≡ false
          → get_item n.id ≡ some live
          → IsReady b
          → (b' : Bridge L.Doc) × (on_create L uuid r get_item fuel b n ≡ some b')
            × ((l : String) × (e : BookmarkNode) × (get b'.mapping.chrome_to_loro n.id ≡ some l)
                × (get (L.get_all_bookmarks b'.doc) l ≡ some e)
                × (e.title ≡ n.title)
                × IsAnchor b' e.parent_id)
            × Keeps b b'
            × IsReady b'
            × (b'.saved ≡ save_mapping b'.mapping)
      unfolding on_create to_node
      on_create_anchored fuel b n live h inner new found k =
          let (p, at, less) = tree.above n.id live found inner in
          let ((pl, s), runs, a) = ensure-IsAnchoring fuel b p (omega arith) k in
          let index = or_else live.index (or_else n.index 0) in
          let e = to_node (record n { parent_id = some p; index = some index }) pl in
          let ne = (tree.same n.id live found).1 in
          let unmapped : has s.mapping.chrome_to_loro n.id ≡ false =
            ground (arith, a.only n.id, new, less) in
          let made = map_new-IsReady get_item s n.id e ne unmapped a.ready in
          let keeps = map_new-Keeps get_item s n.id e a.ready in
          (
            map_created L uuid r get_item n p index (pl, s),
            rw (new, found, at, runs, on_create) refl,
            (
              uuid s.uuids,
              e,
              ground (arith, back-link (uuid s.uuids) n.id s.mapping n.id, eq_iff n.id n.id),
              ground (
                arith,
                L.get-set s.doc (uuid s.uuids) e (uuid s.uuids),
                eq_iff (uuid s.uuids) (uuid s.uuids),
              ),
              refl,
              elim a.anchor [
                | inl root ↦ inl root
                | inr (inl other) ↦ inr (inl other)
                | inr (inr there) ↦ inr (inr (ground (arith, keeps pl there, there)))
              ],
            ),
            (λ x t. ground (arith, keeps x, a.keeps x t, t)),
            saved-IsReady _ _ made,
            refl,
          )
