-- ===== src/Bookmarks/Roots/Parents.antt =====
-- The translation of parent ids to the other id space and back, in
-- extension/src/bookmarks/bridge.ts.
use vaultmarks.Shared.{
  String, true, false, Option, none, some, ◌≡◌, ◌≢◌, refl, arith, ◌==◌, eq_iff, is_some, contains,
  ◌⊎◌, inl, inr, Option-cases,
}
use vaultmarks.Shared.Dict.{get, has, get-put}
use vaultmarks.Bookmarks.Node.{Tree, item, children}
use vaultmarks.Bookmarks.Mapping.{Mapping}
use vaultmarks.Bookmarks.Mapping.Bijection.{IsBijective}
use vaultmarks.Bookmarks.Roots.{
  Roots, canonical_root_ids, default_roots, virtual_roots, add_roots, add_target,
  init_browser_roots, chrome_parent_to_loro, loro_parent_to_chrome,
}
use vaultmarks.Bookmarks.Roots.Translation.{
  IsConsistent, IsVirtual, IsTable, four, virtual_roots-IsTable, add_roots-IsTable,
  IsTable-IsConsistent, add_target-IsConsistent,
}

default_roots-IsConsistent : IsConsistent default_roots
unfolding get contains
default_roots-IsConsistent = record {
  inverse = λ c n h. inl (
      ground (
        arith,
        eq_iff "0" c,
        eq_iff "1" c,
        eq_iff "2" c,
        eq_iff "3" c,
        eq_iff "0" n,
        eq_iff "1" n,
        eq_iff "2" n,
        eq_iff "3" n,
      ));
  zero = refl;
  canonical = λ k h. h;
  native = λ c n h. ground (arith, eq_iff "0" c, eq_iff "1" c, eq_iff "2" c, eq_iff "3" c);
  root = ground arith;
}

-- Every canonical root has a native target.
abbrev pub IsTotal : Roots → Type 0
IsTotal r = (k : String) → contains canonical_root_ids k ≡ true → has r.canonical_to_native k ≡ true

has-add_target :
    (r : Roots) (k j : String)
    → ((has r.canonical_to_native j ≡ true) ⊎ (k ≡ j))
    → has (add_target r k).canonical_to_native j ≡ true
unfolding add_target
has-add_target r k j h = ground (arith, get-put r.canonical_to_native k k j, eq_iff k j)

native-add_target :
    (r : Roots) (k : String) → (add_target r k).native_to_canonical ≡ r.native_to_canonical
unfolding add_target
native-add_target r k = ground arith

-- An id that the virtual root of a browser has: "0" in Chrome, no other root's id elsewhere.
abbrev pub IsRootId : String → Type 0
IsRootId id = ((id == "0") ≡ true) ⊎ (((id == "0") ≡ false) × IsVirtual id)

filled : (r : Roots) → IsTable r → IsConsistent (add_target (add_target (add_target r "1") "2") "3")
unfolding contains
filled r t =
    add_target-IsConsistent (add_target (add_target r "1") "2") "3" refl
      (rw (native-add_target, native-add_target) (t.plain "3" refl))
      (add_target-IsConsistent (add_target r "1") "2" refl
        (rw (native-add_target) (t.plain "2" refl))
        (add_target-IsConsistent r "1" refl (t.plain "1" refl) (IsTable-IsConsistent r t)))

init-IsConsistent : (root : Tree) → IsRootId (item root).id → IsConsistent (init_browser_roots root)
unfolding init_browser_roots contains
init-IsConsistent root (inl e) = rw (e, init_browser_roots) default_roots-IsConsistent
init-IsConsistent root (inr (e, v)) =
    let t =
      add_roots-IsTable (virtual_roots (item root).id) (children root)
        (virtual_roots-IsTable (item root).id v) in
    rw (e, init_browser_roots) (filled (add_roots (virtual_roots (item root).id) (children root)) t)

default_roots-IsTotal : IsTotal default_roots
unfolding get contains
default_roots-IsTotal k h = ground (arith)

filled-IsTotal :
    (r : Roots)
    → get r.canonical_to_native "0" ≢ none
    → IsTotal (add_target (add_target (add_target r "1") "2") "3")
unfolding contains
filled-IsTotal r root =
    four
      (λ k. has (add_target (add_target (add_target r "1") "2") "3").canonical_to_native k ≡ true)
      (has-add_target (add_target (add_target r "1") "2") "3" "0" (
        inl (
          has-add_target (add_target r "1") "2" "0"
            (inl (has-add_target r "1" "0" (inl (ground arith)))))))
      (has-add_target (add_target (add_target r "1") "2") "3" "1" (
        inl
          (has-add_target (add_target r "1") "2" "1" (inl (has-add_target r "1" "1" (inr refl))))))
      (has-add_target (add_target (add_target r "1") "2") "3" "2"
        (inl (has-add_target (add_target r "1") "2" "2" (inr refl))))
      (has-add_target (add_target (add_target r "1") "2") "3" "3" (inr refl))

init-IsTotal : (root : Tree) → IsRootId (item root).id → IsTotal (init_browser_roots root)
unfolding init_browser_roots contains
init-IsTotal root (inl e) = rw (e, init_browser_roots) default_roots-IsTotal
init-IsTotal root (inr (e, v)) =
    let t =
      add_roots-IsTable (virtual_roots (item root).id) (children root)
        (virtual_roots-IsTable (item root).id v) in
    rw (e, init_browser_roots)
      (filled-IsTotal (add_roots (virtual_roots (item root).id) (children root)) t.root)

-- The ids of the mapping are no root's ids: no root is ever mapped.
pub record AvoidsRoots (r : Roots) (m : Mapping) : Type 0 where
  pub untranslated :
      (c l : String) → get m.chrome_to_loro c ≡ some l → get r.native_to_canonical c ≡ none
  pub unlisted :
      (c : String) → contains r.all_native_root_ids c ≡ true → get m.chrome_to_loro c ≡ none

some_not : {o : Option String} → is_some o ≡ true → o ≢ none
some_not h e = ground arith

module _ (r : Roots) (m : Mapping) (t : IsConsistent r) where
  module _ (b : IsBijective m) (a : AvoidsRoots r m) where
    root_back :
        (l n : String) → get r.canonical_to_native l ≡ some n → chrome_parent_to_loro r m n ≡ l
    unfolding chrome_parent_to_loro
    root_back l n e = ground (arith, t.inverse l n e, t.native l n e, a.unlisted n)

    mapped_back : (l c : String) → get m.loro_to_chrome l ≡ some c → chrome_parent_to_loro r m c ≡ l
    unfolding chrome_parent_to_loro
    mapped_back l c e = ground (arith, a.untranslated c l (b.forth l c e), b.forth l c e)

    parent_back :
        (l : String)
        → (get r.canonical_to_native l ≢ none) ⊎ (get m.loro_to_chrome l ≢ none)
        → chrome_parent_to_loro r m (loro_parent_to_chrome r m l) ≡ l
    unfolding loro_parent_to_chrome
    parent_back l known = elim (Option-cases (get r.canonical_to_native l)) [
      | inr (n, e) ↦ rw (e, loro_parent_to_chrome) (root_back l n e)
      | inl e ↦ elim (Option-cases (get m.loro_to_chrome l)) [
        | inr (c, e') ↦ rw (e, e', loro_parent_to_chrome) (mapped_back l c e')
        | inl e' ↦ absurd (elim known [ inl k ↦ k e | inr k ↦ k e' ])
      ]
    ]

-- For the tables that `initBrowserRoots` builds from any tree whose virtual root has an id of its
-- own, and a mapping that is a bijection and maps no root: translating the document's parent id to
-- the browser and back gives the same id, for every canonical root and every mapped document id.
pub parent_round_trip :
    (root : Tree) (m : Mapping)
    → IsRootId (item root).id
    → IsBijective m
    → AvoidsRoots (init_browser_roots root) m
    → (l : String) → (contains canonical_root_ids l ≡ true) ⊎ (get m.loro_to_chrome l ≢ none)
    → chrome_parent_to_loro
        (init_browser_roots root)
        m
        (loro_parent_to_chrome (init_browser_roots root) m l)
      ≡ l
parent_round_trip root m rid b a l known =
    parent_back (init_browser_roots root) m (init-IsConsistent root rid) b a l
      (elim known [ inl k ↦ inl (λ e. some_not (init-IsTotal root rid l k) e) | inr k ↦ inr k ])
