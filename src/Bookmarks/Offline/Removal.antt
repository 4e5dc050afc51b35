-- ===== src/Bookmarks/Offline/Removal.antt =====
-- Steps 2 and 3 of the merge of offline changes.
use vaultmarks.Shared.{
  ℕ, String, true, false, not, Option, none, some, List, [], ◌∷◌, ◌==◌, ◌||◌, if◌then◌else◌,
  contains, ◌≡◌, ◌⊎◌, refl, arith, eq_iff, inl, inr, Bool-cases, Option-cases, sym, ◌∙◌, subst,
}
use vaultmarks.Shared.Dict.{Dict, get, has, keys, KeysDistinct}
use vaultmarks.Bookmarks.Node.{BookmarkNode, Item, to_node}
use vaultmarks.Bookmarks.Mapping.{Mapping, unlink}
use vaultmarks.Bookmarks.Mapping.Bijection.{IsBijective, unlink-IsBijective}
use vaultmarks.Bookmarks.Roots.{Roots}
use vaultmarks.Crdt.{Loro}
use vaultmarks.Bookmarks.Offline.{
  Bridge, mapped_id, index_eq, is_changed, chrome_node, parent_of, refreshed, remove_gone,
  remove_all_gone, update_changed,
}
use vaultmarks.Bookmarks.Offline.Phases.{get-unlink, back-unlink}
use vaultmarks.Bookmarks.Offline.Counts.{Agrees, refreshed-Agrees}

pub contains-keys : {V : Type 0} (d : Dict V) (k : String) → contains (keys d) k ≡ has d k
unfolding contains get
contains-keys [] k = refl
contains-keys (e ∷ d) k = ground (arith, contains-keys d k)

mapped_id_cases :
    (m : Mapping) (l : String)
    → ((mapped_id m l ≡ none) × ((c : String) → get m.loro_to_chrome l ≡ some c → (c == "") ≡ true))
      ⊎ ((c : String) × (mapped_id m l ≡ some c) × (get m.loro_to_chrome l ≡ some c))
unfolding mapped_id
mapped_id_cases m l = elim (Option-cases (get m.loro_to_chrome l)) [
  | inl e ↦ inl (ground arith, λ c h. absurd (ground arith))
  | inr (c, e) ↦ elim (Bool-cases (c == "")) [
    | inl blank ↦ inl (ground arith, λ c' h. ground arith)
    | inr named ↦ inr (c, ground arith, e)
  ]
]

module _ (L : Loro) (uuid : ℕ → String) (r : Roots) (current : Dict Item) where
  -- What step 2 does to the mapping: entries go, and none of a node that is there.
  pub record IsPurge (b b' : Bridge L.Doc) : Type 0 where
    pub bijective : IsBijective b.mapping → IsBijective b'.mapping
    pub part :
        (l c : String)
        → get b'.mapping.loro_to_chrome l ≡ some c
        → get b.mapping.loro_to_chrome l ≡ some c
    pub kept :
        (c : String)
        → has current c ≡ true
        → get b'.mapping.chrome_to_loro c ≡ get b.mapping.chrome_to_loro c

  IsPurge-one :
      (b b' : Bridge L.Doc) (l c : String)
      → get b.mapping.loro_to_chrome l ≡ some c
      → has current c ≡ false
      → b'.mapping ≡ unlink l c b.mapping
      → IsPurge b b'
  IsPurge-one b b' l c h gone e = record {
    bijective = λ i. rw e (unlink-IsBijective l c b.mapping i h);
    part = λ l' c' g. part_lem l' c' (subst (λ m. get m.loro_to_chrome l' ≡ some c') e g);
    kept = λ c' there. rw e (ground (arith, back-unlink l c b.mapping c', eq_iff c c'));
  }
    where
      part_lem :
          (l' c' : String)
          → get (unlink l c b.mapping).loro_to_chrome l' ≡ some c'
          → get b.mapping.loro_to_chrome l' ≡ some c'
      part_lem l' c' g = ground (arith, get-unlink l c b.mapping l')

  IsPurge-refl : (b : Bridge L.Doc) → IsPurge b b
  IsPurge-refl b = record { bijective = λ i. i; part = λ l c g. g; kept = λ c g. refl }

  IsPurge-trans : (a b c : Bridge L.Doc) → IsPurge a b → IsPurge b c → IsPurge a c
  IsPurge-trans a b c p q = record {
    bijective = λ i. q.bijective (p.bijective i);
    part = λ l x g. p.part l x (q.part l x g);
    kept = λ x g. q.kept x g ∙ p.kept x g;
  }

  -- The entry's node is there, or the id is not mapped any more.
  abbrev pub IsClean : Bridge L.Doc → String → Type 0
  IsClean b l =
      (c : String)
      → get b.mapping.loro_to_chrome l ≡ some c
      → (c == "") ≡ false
      → has current c ≡ true

  remove_gone-IsPurge :
      (b : Bridge L.Doc) (l : String)
      → IsPurge b (remove_gone L uuid r current b l) × IsClean (remove_gone L uuid r current b l) l
  unfolding remove_gone
  remove_gone-IsPurge b l = elim (mapped_id_cases b.mapping l) [
    | inl (e, blank) ↦ rw (e, remove_gone) (IsPurge-refl b, λ c g ne. ground (arith, blank c g))
    | inr (c, e, h) ↦ elim (Bool-cases (has current c)) [
      | inl there ↦ rw (e, remove_gone, there) (IsPurge-refl b, λ c' g ne. ground arith)
      | inr gone ↦
          rw (e, remove_gone, gone)
            (
              IsPurge-one b _ l c h gone refl,
              λ c' g ne. absurd (ground (arith, get-unlink l c b.mapping l, eq_iff l l)),
            )
    ]
  ]

  pub remove_all_gone-IsPurge :
      (b : Bridge L.Doc) (ls : List String) → IsPurge b (remove_all_gone L uuid r current b ls)
  unfolding remove_all_gone
  remove_all_gone-IsPurge b [] = IsPurge-refl b
  remove_all_gone-IsPurge b (l ∷ ls) =
      IsPurge-trans b (remove_gone L uuid r current b l)
        (remove_all_gone L uuid r current (remove_gone L uuid r current b l) ls)
        (remove_gone-IsPurge b l).0 (remove_all_gone-IsPurge (remove_gone L uuid r current b l) ls)

  pub remove_all_gone-IsClean :
      (b : Bridge L.Doc) (ls : List String) (l : String)
      → contains ls l ≡ true
      → IsClean (remove_all_gone L uuid r current b ls) l
  unfolding remove_all_gone contains
  remove_all_gone-IsClean b [] l h c g ne = absurd (ground arith)
  remove_all_gone-IsClean b (k ∷ ls) l h c g ne =
      let rest = remove_all_gone-IsPurge (remove_gone L uuid r current b k) ls in
      elim (Bool-cases (k == l)) [
        | inl same ↦
            (remove_gone-IsPurge b k).1 c
              (subst (λ x. get (remove_gone L uuid r current b k).mapping.loro_to_chrome x ≡ some c)
                (sym ((eq_iff k l).0 same)) (rest.part l c g))
              ne
        | inr other ↦
            remove_all_gone-IsClean (remove_gone L uuid r current b k) ls l (ground arith) c g ne
      ]

  module _ (m : Mapping) where
    abbrev updated : L.Doc → String → BookmarkNode → L.Doc
    updated d l n = update_changed L uuid r m current d ((l, n) ∷ [])

    get-updated :
        (d : L.Doc) (l : String) (n : BookmarkNode) (k : String)
        → get (L.get_all_bookmarks d) l ≡ some n
        → get (L.get_all_bookmarks (updated d l n)) k
          ≡ (if l == k then some (refreshed r m current l n) else get (L.get_all_bookmarks d) k)
    unfolding update_changed refreshed
    get-updated d l n k h = elim (Option-cases (chrome_node r m current l)) [
      | inl e ↦ rw (e, update_changed, refreshed) (ground (arith, eq_iff l k))
      | inr (i, e) ↦
          elim (Bool-cases
            (is_changed i n (parent_of r m current i) || not (index_eq i.index n.index))) [
              | inl differs ↦
                  rw (e, update_changed, refreshed, differs)
                    (L.get-set d l (to_node i (parent_of r m current i)) k)
              | inr same ↦ rw (e, update_changed, refreshed, same) (ground (arith, eq_iff l k))
            ]
    ]

    update_changed_step :
        (d : L.Doc) (e : String × BookmarkNode) (es : List (String × BookmarkNode))
        → update_changed L uuid r m current d (e ∷ es)
          ≡ update_changed L uuid r m current (updated d e.0 e.1) es
    unfolding update_changed
    update_changed_step d e es = refl

    abbrev AllThere : L.Doc → List (String × BookmarkNode) → Type 0
    AllThere d es =
        (k : String) (n : BookmarkNode) → get es k ≡ some n → get (L.get_all_bookmarks d) k ≡ some n

    abbrev expected : L.Doc → List (String × BookmarkNode) → String → Option BookmarkNode
    expected d es k = elim (get es k) [
      | none ↦ get (L.get_all_bookmarks d) k
      | some n ↦ some (refreshed r m current k n)
    ]

    -- After step 3 each listed entry is the refreshed one, and no other entry has changed.
    get-update_changed :
        (d : L.Doc) (es : List (String × BookmarkNode)) (k : String)
        → KeysDistinct es
        → AllThere d es
        → get (L.get_all_bookmarks (update_changed L uuid r m current d es)) k ≡ expected d es k
    unfolding get
    get-update_changed d [] k u a = unfold update_changed in refl
    get-update_changed d (e ∷ es) k u a =
        let here = get-updated d e.0 e.1 k (a e.0 e.1 (ground (arith, eq_iff e.0 e.0))) in
        let later = get-update_changed (updated d e.0 e.1) es k u.1 (λ j n g.
          get-updated d e.0 e.1 j (a e.0 e.1 (ground (arith, eq_iff e.0 e.0)))
          ∙ ground (arith, a j n, eq_iff e.0 j, u.0)) in
        rw (update_changed_step d e es) (later ∙ ground (arith, here, eq_iff e.0 k, u.0))

    -- After step 3 every entry of the document agrees with the browser's node.
    pub all_agree :
        (d : L.Doc) (k : String) (n : BookmarkNode)
        → get (L.get_all_bookmarks (update_changed L uuid r m current d (L.get_all_bookmarks d))) k
          ≡ some n
        → Agrees r m current k n
    all_agree d k n h =
        let e = get-update_changed d (L.get_all_bookmarks d) k (L.all-distinct d) (λ j x g. g) in
        elim (Option-cases (get (L.get_all_bookmarks d) k)) [
          | inl gone ↦ absurd (ground (arith, e))
          | inr (x, there) ↦
              let same : refreshed r m current k x ≡ n = ground (arith, e) in
              subst (Agrees r m current k) same (refreshed-Agrees r m current k x)
        ]
