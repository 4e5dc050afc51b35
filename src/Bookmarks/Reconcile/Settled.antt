-- ===== src/Bookmarks/Reconcile/Settled.antt =====
-- What `reconcile` makes of the browser and the mapping together, where the browser's ids are fresh.
use vaultmarks.Shared.{
  ℕ, suc, sort_by, String, true, Option, none, some, List, [], ◌∷◌, ◌++◌, ◌||◌, or_else, contains,
  ◌≡◌, refl, arith, eq_iff, inl, inr, Bool-cases, Option-cases,
}
use vaultmarks.Shared.Dict.{Dict, get, has, keys, KeysDistinct, put-KeysDistinct}
use vaultmarks.Shared.Perms.{perm-KeysDistinct, perm-get-none}
use vaultmarks.Bookmarks.Node.{BookmarkNode, Item}
use vaultmarks.Bookmarks.Mapping.{Mapping, link, save_mapping}
use vaultmarks.Bookmarks.Mapping.Bijection.{link-IsBijective}
use vaultmarks.Bookmarks.Roots.{
  Roots, canonical_root_ids, is_valid_chrome_parent_id, loro_parent_to_chrome,
}
use vaultmarks.Bookmarks.Browser.{Browser, HasFreshIds}
use vaultmarks.Bookmarks.Offline.{index_items}
use vaultmarks.Bookmarks.Offline.Phases.{get-link}
use vaultmarks.Bookmarks.TopoSort.{Entry}
use vaultmarks.Bookmarks.TopoSort.Total.{topo_sort_total}
use vaultmarks.Bookmarks.Orphans.{effective_desired}
use vaultmarks.Bookmarks.Orphans.Closure.{effective_desired-KeysDistinct}
use vaultmarks.Bookmarks.Reconcile.{
  Reconciling, FolderEntry, desired_index, visits, forget_all, all_descendants, purge_all_stale,
  remove_undesired, remove_all_undesired, unmapped, to_create, create_entry, create_entries,
  update_entry, update_entries, move_entries, arrange_folder, arrange_folders, reconcile,
}
use vaultmarks.Bookmarks.Reconcile.Tracked.{
  IsTracked, IsLess, unlink_pair-IsTracked, unlink-IsLess, loro_id_of-cases, forget_all-IsTracked,
  purge_all_stale-IsTracked,
}

module _ (B : Browser) (r : Roots) (key_order : List String → List String) where
  module _ (H : HasFreshIds B) where
    -- The mapping is sound and holds only ids that the browser has given.
    pub record IsSettled (s : Reconciling B.State) : Type 0 where
      pub tracked : IsTracked s.mapping
      pub used :
          (l c : String) → get s.mapping.loro_to_chrome l ≡ some c → H.is_used s.browser c ≡ true

    -- A step that only takes entries away and keeps the ids that were given.
    shrink-IsSettled :
        (s s' : Reconciling B.State)
        → IsTracked s'.mapping
        → IsLess s.mapping s'.mapping
        → ((k : String) → H.is_used s.browser k ≡ true → H.is_used s'.browser k ≡ true)
        → IsSettled s
        → IsSettled s'
    shrink-IsSettled s s' t less keeps p = record {
      tracked = t;
      used = λ l c h. keeps c (p.used l c (less l c h));
    }

    pub remove_undesired-IsSettled :
        (current : Dict Item) (effective : Dict BookmarkNode)
        (s : Reconciling B.State × List String) (c : String)
        → IsSettled s.0
        → IsSettled (remove_undesired B r key_order current effective s c).0
    unfolding remove_undesired
    remove_undesired-IsSettled current effective (s, deleted) c p =
        elim (Option-cases (B.remove_tree c s.browser)) [
          | inl e ↦ rw (e, remove_undesired) (ground (arith, p))
          | inr (s', e) ↦
              let gone = all_descendants key_order current c in
              let (t, less, pairs) = forget_all-IsTracked s.mapping gone p.tracked in
              let keeps = H.remove_tree-keeps c s.browser e in
              elim (loro_id_of-cases s.mapping c) [
                | inl f ↦
                    rw (e, f, remove_undesired)
                      (elim (Bool-cases (contains deleted c)) [
                        | inl g ↦ rw g p
                        | inr g ↦ rw g (shrink-IsSettled s _ t less keeps p)
                      ])
                | inr (l, f, g) ↦
                    rw (e, f, remove_undesired)
                      (elim (Bool-cases (contains deleted c || has effective l)) [
                        | inl k ↦ rw k p
                        | inr k ↦ rw k (
                            shrink-IsSettled s _
                              (unlink_pair-IsTracked l c (forget_all s.mapping gone)
                                (pairs l c (inl (p.tracked.bijective.back c l g))) t)
                              (λ l' c' h.
                                less l' c' (unlink-IsLess l c (forget_all s.mapping gone) l' c' h))
                              keeps p)
                      ])
              ]
        ]

    remove_all_undesired-IsSettled :
        (current : Dict Item) (effective : Dict BookmarkNode)
        (s : Reconciling B.State × List String) (cs : List String)
        → IsSettled s.0
        → IsSettled (remove_all_undesired B r key_order current effective s cs).0
    unfolding remove_all_undesired
    remove_all_undesired-IsSettled current effective s [] p = p
    remove_all_undesired-IsSettled current effective s (c ∷ cs) p =
        remove_all_undesired-IsSettled current effective
          (remove_undesired B r key_order current effective s c) cs
          (remove_undesired-IsSettled current effective s c p)

    -- The entries that are still to be made: none twice, and none of a mapped id.
    abbrev IsDue : Mapping → List Entry → Type 0
    IsDue m es =
        KeysDistinct es × ((k c : String) → get m.loro_to_chrome k ≡ some c → get es k ≡ none)

    unmapped-IsDue :
        (m : Mapping) (es : Dict BookmarkNode)
        → KeysDistinct es
        → IsDue m (unmapped B r key_order m es)
          × ((k : String) → get es k ≡ none → get (unmapped B r key_order m es) k ≡ none)
    unfolding unmapped get
    unmapped-IsDue m [] d = ((tt, λ k c h. refl), λ k h. refl)
    unmapped-IsDue m (e ∷ es) d =
        let ((i, due), none_new) = unmapped-IsDue m es d.1 in
        (
          (ground (arith, i, none_new e.0, d.0), λ k c h. ground (arith, due k c h, eq_iff e.0 k)),
          λ k h. ground (arith, none_new k, h),
        )

    to_create-IsDue :
        (m : Mapping) (es : Dict BookmarkNode)
        → KeysDistinct es
        → IsDue m (to_create B r key_order m es)
    unfolding to_create
    to_create-IsDue m es d =
        let ((i, due), new) = unmapped-IsDue m es d in
        let (out, e, p) =
          topo_sort_total (unmapped B r key_order m es)
            (canonical_root_ids ++ keys m.loro_to_chrome) i in
        rw (to_create, e)
          (
            perm-KeysDistinct (unmapped B r key_order m es) out p i,
            λ k c h. perm-get-none (unmapped B r key_order m es) out k p (due k c h),
          )

    link_new-IsSettled :
        (s : Reconciling B.State) (l id pid title : String) (url : Option String)
        (browser : B.State)
        → B.create pid title url s.browser ≡ some (id, browser)
        → get s.mapping.loro_to_chrome l ≡ none
        → IsSettled s
        → IsSettled (record {
          browser = browser;
          mapping = link l id s.mapping;
          saved = save_mapping (link l id s.mapping);
        })
    link_new-IsSettled s l id pid title url browser e new p =
        let unused : get s.mapping.chrome_to_loro id ≡ none =
          elim (Option-cases (get s.mapping.chrome_to_loro id)) [
            | inl f ↦ f
            | inr (k, f) ↦ absurd (
                ground (
                  arith,
                  H.create-new pid title url s.browser e,
                  p.used k id (p.tracked.bijective.back id k f),
                ))
          ] in
        record {
          tracked = record {
            bijective = link-IsBijective l id s.mapping p.tracked.bijective new unused;
            distinct =
                unfold link in put-KeysDistinct s.mapping.loro_to_chrome l id p.tracked.distinct;
          };
          used = λ k c h. ground (
            arith,
            get-link l id s.mapping k,
            p.used k c,
            H.create-used pid title url s.browser e,
            H.create-keeps pid title url s.browser e c,
          );
        }

    create_entry-IsSettled :
        (s : Reconciling B.State) (e : Entry) (es : List Entry)
        → IsDue s.mapping (e ∷ es)
        → IsSettled s
        → IsSettled (create_entry B r key_order s e)
          × IsDue (create_entry B r key_order s e).mapping es
    unfolding create_entry get
    create_entry-IsSettled s (l, n) es (d, due) p =
        let pid = loro_parent_to_chrome r s.mapping n.parent_id in
        let later : (k c : String) → get s.mapping.loro_to_chrome k ≡ some c → get es k ≡ none =
          λ k c h. ground (arith, due k c h) in
        elim (Option-cases (B.create pid n.title n.url s.browser)) [
          | inl e ↦ elim (Bool-cases (is_valid_chrome_parent_id r s.mapping pid)) [
            | inl v ↦ rw (v, e, create_entry) (p, (d.1, later))
            | inr v ↦ rw (v, create_entry) (p, (d.1, later))
          ]
          | inr ((id, browser), e) ↦ elim (Bool-cases (is_valid_chrome_parent_id r s.mapping pid)) [
            | inr v ↦ rw (v, create_entry) (p, (d.1, later))
            | inl v ↦
                rw (v, e, create_entry)
                  (
                    link_new-IsSettled s l id pid n.title n.url browser e
                        (elim (Option-cases (get s.mapping.loro_to_chrome l)) [
                          | inl f ↦ f
                          | inr (c, f) ↦ absurd (ground (arith, due l c f, eq_iff l l))
                        ])
                        p,
                    (
                      d.1,
                      λ k c h.
                          ground (arith, later k c, get-link l id s.mapping k, eq_iff l k, d.0),
                    ),
                  )
          ]
        ]

    create_entries-IsSettled :
        (s : Reconciling B.State) (es : List Entry)
        → IsDue s.mapping es
        → IsSettled s
        → IsSettled (create_entries B r key_order s es)
    unfolding create_entries
    create_entries-IsSettled s [] d p = p
    create_entries-IsSettled s (e ∷ es) d p =
        let (p', d') = create_entry-IsSettled s e es d p in
        create_entries-IsSettled (create_entry B r key_order s e) es d' p'

    -- The browser has given every id that it had given before.
    abbrev Keeps : B.State → B.State → Type 0
    Keeps s s' = (k : String) → H.is_used s k ≡ true → H.is_used s' k ≡ true

    update_entry-Keeps :
        (current : Dict Item) (deleted : List String) (m : Mapping)
        (s : B.State × Dict (List FolderEntry)) (e : Entry)
        → Keeps s.0 (update_entry B r key_order current deleted m s e).0
    unfolding update_entry
    update_entry-Keeps current deleted m (s, d) (l, n) k h =
        elim (Option-cases (get m.loro_to_chrome l)) [
          | inl e ↦ rw (e, update_entry) h
          | inr (c, e) ↦ elim (Option-cases (get current c)) [
            | inl f ↦ rw (e, f, update_entry) (ground (arith, h))
            | inr (i, f) ↦
                rw (e, f, update_entry) (ground (arith, h, H.update-keeps c n.title n.url s k))
          ]
        ]

    update_entries-Keeps :
        (current : Dict Item) (deleted : List String) (m : Mapping)
        (s : B.State × Dict (List FolderEntry)) (es : List Entry)
        → Keeps s.0 (update_entries B r key_order current deleted m s es).0
    unfolding update_entries
    update_entries-Keeps current deleted m s [] k h = h
    update_entries-Keeps current deleted m s (e ∷ es) k h =
        update_entries-Keeps current deleted m (update_entry B r key_order current deleted m s e) es
          k (update_entry-Keeps current deleted m s e k h)

    move_entries-Keeps :
        (p : String) (i : ℕ) (s : B.State) (es : List FolderEntry)
        → Keeps s (move_entries B r key_order p i s es)
    unfolding move_entries
    move_entries-Keeps p i s [] k h = h
    move_entries-Keeps p i s (e ∷ es) k h =
        move_entries-Keeps p (suc i) (B.move e.chrome_id p i s) es k
          (H.move-keeps e.chrome_id p i s k h)

    arrange_folders-Keeps :
        (s : B.State) (fs : Dict (List FolderEntry)) → Keeps s (arrange_folders B r key_order s fs)
    unfolding arrange_folders arrange_folder
    arrange_folders-Keeps s [] k h = h
    arrange_folders-Keeps s (f ∷ fs) k h =
        arrange_folders-Keeps (arrange_folder B r key_order s f) fs k
          (ground (arith, h, move_entries-Keeps f.0 0 s (sort_by desired_index f.1) k h))

    -- Where the browser never gives an id twice, the two maps are inverse to one another, none has
    -- an id twice and every mapped id is one that the browser has given, and the document's ids are
    -- distinct, the same holds of the maps after a reconcile, with what was saved of them.
    pub reconcile-IsSettled :
        (desired : Dict BookmarkNode) (s : Reconciling B.State)
        → KeysDistinct desired
        → IsSettled s
        → IsSettled (reconcile B r key_order desired s)
          × ((reconcile B r key_order desired s).saved
              ≡ save_mapping (reconcile B r key_order desired s).mapping)
    unfolding reconcile
    reconcile-IsSettled desired s d p =
        let current = index_items [] (visits r (B.get_tree s.browser)) in
        let m =
          purge_all_stale B r key_order current s.browser s.mapping s.mapping.loro_to_chrome in
        let (t, less) =
          purge_all_stale-IsTracked B r key_order current s.browser s.mapping
            s.mapping.loro_to_chrome p.tracked.distinct (λ l c h. h) p.tracked in
        let effective = or_else (effective_desired m desired) desired in
        let ready : Reconciling B.State × List String = (record s { mapping = m }, []) in
        let removed =
          remove_all_undesired-IsSettled current effective ready (key_order (keys current))
            (shrink-IsSettled s ready.0 t less (λ k h. h) p) in
        let after =
          remove_all_undesired B r key_order current effective ready (key_order (keys current)) in
        let es = to_create B r key_order after.0.mapping effective in
        let made = create_entries B r key_order after.0 es in
        let settled =
          create_entries-IsSettled after.0 es
            (to_create-IsDue after.0.mapping effective (effective_desired-KeysDistinct m desired d))
            removed in
        let changed =
          update_entries B r key_order current after.1 made.mapping (made.browser, []) effective in
        (
          shrink-IsSettled made _ settled.tracked (λ l c h. h)
              (λ k h. arrange_folders-Keeps changed.0 changed.1 k (
                update_entries-Keeps current after.1 made.mapping (made.browser, []) effective k h))
              settled,
          refl,
        )
