-- ===== src/Bookmarks/Offline/Counts.antt =====
-- What the comparison counts where the document agrees with the browser.
use vaultmarks.Shared.{
  ℕ, String, true, false, not, Option, none, some, List, [], ◌∷◌, ◌||◌, or_else, ◌≡◌, refl, arith,
  eq_iff, inl, inr, Bool-cases, Option-cases, All, ap,
}
use vaultmarks.Shared.Dict.{Dict, get, has, keys}
use vaultmarks.Bookmarks.Node.{BookmarkNode, Item, to_node}
use vaultmarks.Shared.Dict.{KeysDistinct, put-KeysDistinct}
use vaultmarks.Bookmarks.Mapping.{Mapping}
use vaultmarks.Bookmarks.Roots.{Roots}
use vaultmarks.Bookmarks.Offline.{
  index_items, url_eq, index_eq, is_changed, chrome_node, parent_of, refreshed, Siblings, push,
  sibling_order, is_reordered, Compared, compare_entry, compare_entries, count_reordered,
  count_added, count_removed, compute_offline_changes,
}

url_eq_iff : (a b : Option String) → url_eq a b ≡ true → a ≡ b
url_eq_iff none none h = refl
url_eq_iff none (some v) h = absurd (ground arith)
url_eq_iff (some u) none h = absurd (ground arith)
url_eq_iff (some u) (some v) h = ap some ((eq_iff u v).0 h)

url_eq_refl : (a : Option String) → url_eq a a ≡ true
url_eq_refl none = refl
url_eq_refl (some u) = (eq_iff u u).1 refl

module _ (r : Roots) (m : Mapping) (current : Dict Item) where
  -- The document's entry is what the browser has.
  abbrev pub Agrees : String → BookmarkNode → Type 0
  Agrees l n =
      (i : Item)
      → chrome_node r m current l ≡ some i
      → (is_changed i n (parent_of r m current i) ≡ false) × (n.index ≡ or_else i.index 0)

  same_node :
      (i : Item) (n : BookmarkNode)
      → (is_changed i n (parent_of r m current i) || not (index_eq i.index n.index)) ≡ false
      → (is_changed i n (parent_of r m current i) ≡ false) × (n.index ≡ or_else i.index 0)
  same_node i n h = ground arith

  is_changed-to_node : (i : Item) (p : String) → is_changed i (to_node i p) p ≡ false
  unfolding is_changed to_node
  is_changed-to_node i p = ground (arith, eq_iff i.title i.title, eq_iff p p, url_eq_refl i.url)

  index-to_node : (i : Item) (p : String) → (to_node i p).index ≡ or_else i.index 0
  unfolding to_node
  index-to_node i p = refl

  pub refreshed-Agrees : (l : String) (n : BookmarkNode) → Agrees l (refreshed r m current l n)
  unfolding refreshed
  refreshed-Agrees l n i e =
      elim (Bool-cases
        (is_changed i n (parent_of r m current i) || not (index_eq i.index n.index))) [
          | inl differs ↦
              rw (e, refreshed, differs)
                (
                  is_changed-to_node i (parent_of r m current i),
                  index-to_node i (parent_of r m current i),
                )
          | inr same ↦ rw (e, refreshed, same) (same_node i n same)
        ]

  no_change :
      (i : Item) (n : BookmarkNode) (p : String) → is_changed i n p ≡ false → p ≡ n.parent_id
  unfolding is_changed
  no_change i n p h = ground (arith, eq_iff p n.parent_id)

  -- What the counting loop keeps on entries that agree.
  record IsQuiet (s : Compared) : Type 0 where
    none_modified : s.modified ≡ 0
    alike : s.loro_by_parent ≡ s.chrome_by_parent
    unique : KeysDistinct s.loro_by_parent

  compare_entry-IsQuiet :
      (s : Compared) (l : String) (n : BookmarkNode)
      → Agrees l n
      → IsQuiet s
      → IsQuiet (compare_entry r m current s l n)
  unfolding compare_entry
  compare_entry-IsQuiet s l n a q = elim (Option-cases (chrome_node r m current l)) [
    | inl e ↦ rw (e, compare_entry) q
    | inr (i, e) ↦
        let (same, index) = a i e in
        rw (e, compare_entry, same, no_change i n (parent_of r m current i) same, index)
          (record {
            none_modified = q.none_modified;
            alike = ap (λ d. push d n.parent_id (l, or_else i.index 0)) q.alike;
            unique = unfold push in put-KeysDistinct s.loro_by_parent n.parent_id _ q.unique;
          })
  ]

  compare_entries-IsQuiet :
      (s : Compared) (es : List (String × BookmarkNode))
      → All (λ e. Agrees e.0 e.1) es
      → IsQuiet s
      → IsQuiet (compare_entries r m current s es)
  unfolding compare_entries
  compare_entries-IsQuiet s [] a q = q
  compare_entries-IsQuiet s (e ∷ es) a q =
      compare_entries-IsQuiet (compare_entry r m current s e.0 e.1) es a.1
        (compare_entry-IsQuiet s e.0 e.1 a.0 q)

is_reordered_self : (xs : List (String × ℕ)) → is_reordered xs xs ≡ false
unfolding is_reordered
is_reordered_self [] = refl
is_reordered_self (x ∷ xs) = ground (arith, eq_iff x.0 x.0, is_reordered_self xs)

-- Where both sides have the same lists of siblings, no folder is reordered. The keys of the
-- second argument include those of the first, as the loop goes over one of two equal maps.
count_reordered_self :
    (d e : Siblings)
    → KeysDistinct d
    → ((p : String) (xs : List (String × ℕ)) → get d p ≡ some xs → get e p ≡ some xs)
    → count_reordered d e ≡ 0
unfolding count_reordered get
count_reordered_self [] e u h = refl
count_reordered_self ((p, xs) ∷ d) e u h =
    rw (h p xs (ground (arith, eq_iff p p)), is_reordered_self (sibling_order xs))
      (omega
        (arith, count_reordered_self d e u.1 (λ q ys g. h q ys (ground (arith, eq_iff p q, u.0)))))

-- Entries that agree with the browser's nodes count as unmodified, with every folder in order.
pub agreeing_unmodified :
    (r : Roots) (m : Mapping) (visit_order : List Item) (es : Dict BookmarkNode)
    → All (λ e. Agrees r m (index_items [] visit_order) e.0 e.1) es
    → (compute_offline_changes r m visit_order es).modified ≡ 0
unfolding compute_offline_changes
agreeing_unmodified r m visit_order es a =
    let current = index_items [] visit_order in
    let q =
      compare_entries-IsQuiet r m current
        (record { modified = 0; loro_by_parent = []; chrome_by_parent = [] }) es a
        (record { none_modified = refl; alike = refl; unique = tt }) in
    rw (q.none_modified, ← q.alike) (omega (arith, count_reordered_self _ _ q.unique (λ p xs g. g)))

-- Every node mapped: none is added.
pub count_added-zero :
    (m : Mapping) (current : Dict Item)
    → ((c : String) → has current c ≡ true → has m.chrome_to_loro c ≡ true)
    → count_added m (keys current) ≡ 0
unfolding count_added get
count_added-zero m [] h = refl
count_added-zero m (e ∷ current) h =
    rw (h e.0 (ground (arith, eq_iff e.0 e.0)))
      (omega (arith, count_added-zero m current (λ c g. h c (ground arith))))

-- Every mapped node there: none is removed.
pub count_removed-zero :
    (m : Mapping) (current : Dict Item) (d : Dict String)
    → ((l : String) → has d l ≡ true → has m.loro_to_chrome l ≡ true)
    → ((l c : String) → get m.loro_to_chrome l ≡ some c → has current c ≡ true)
    → count_removed m current (keys d) ≡ 0
unfolding count_removed get
count_removed-zero m current [] k h = refl
count_removed-zero m current (e ∷ d) k h = elim (Option-cases (get m.loro_to_chrome e.0)) [
  | inl e' ↦ absurd (ground (arith, k e.0, eq_iff e.0 e.0))
  | inr (c, e') ↦
      rw (e', h e.0 c e')
        (omega (arith, count_removed-zero m current d (λ l g. k l (ground arith)) h))
]
