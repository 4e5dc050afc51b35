-- ===== src/Bookmarks/Import/Diff.antt =====
-- The URLs that the comparison of an import counts.
use vaultmarks.Shared.{
  String, true, false, Option, none, some, List, [], ◌∷◌, ◌++◌, ◌==◌, ◌⊎◌, ◌≡◌, refl, arith, eq_iff,
  inl, inr, Bool-cases, contains, contains-add, All,
}
use vaultmarks.Shared.Dict.{Dict, get, KeysDistinct}
use vaultmarks.Bookmarks.Node.{BookmarkNode, Item}
use vaultmarks.Bookmarks.Import.{add_url, chrome_urls, server_urls, count_missing}

-- An entry has the URL.
abbrev pub HasUrl : Dict BookmarkNode → String → Type 0
HasUrl d u = (l : String) × (n : BookmarkNode) × (get d l ≡ some n) × (n.url ≡ some u)

module _ (there : List String) where
  All-append :
      (xs ys : List String)
      → All (λ u. contains there u ≡ true) xs
      → All (λ u. contains there u ≡ true) ys
      → All (λ u. contains there u ≡ true) (xs ++ ys)
  All-append [] ys a c = c
  All-append (x ∷ xs) ys a c = (a.0, All-append xs ys a.1 c)

  All-add_url :
      (us : List String) (o : Option String)
      → All (λ u. contains there u ≡ true) us
      → ((u : String) → o ≡ some u → (u == "") ≡ false → contains there u ≡ true)
      → All (λ u. contains there u ≡ true) (add_url us o)
  All-add_url us none a h = a
  All-add_url us (some u) a h = elim (Bool-cases (u == "")) [
    | inl e ↦ rw e a
    | inr e ↦ elim (Bool-cases (contains us u)) [
      | inl k ↦ rw (e, k) a
      | inr k ↦ rw (e, k) (All-append us (u ∷ []) a (h u refl e, tt))
    ]
  ]

  pub All-chrome_urls :
      (us : List String) (is : List Item)
      → All (λ u. contains there u ≡ true) us
      → All (λ i. (u : String) → i.url ≡ some u → (u == "") ≡ false → contains there u ≡ true) is
      → All (λ u. contains there u ≡ true) (chrome_urls us is)
  unfolding chrome_urls
  All-chrome_urls us [] a h = a
  All-chrome_urls us (i ∷ is) a h =
      All-chrome_urls (add_url us i.url) is (All-add_url us i.url a h.0) h.1

  pub none_missing :
      (us : List String) → All (λ u. contains there u ≡ true) us → count_missing there us ≡ 0
  unfolding count_missing
  none_missing [] a = refl
  none_missing (u ∷ us) a = rw (a.0, none_missing us a.1) refl

contains-add_url :
    (us : List String) (o : Option String) (u : String)
    → (contains us u ≡ true) ⊎ (o ≡ some u) × ((u == "") ≡ false)
    → contains (add_url us o) u ≡ true
contains-add_url us none u h = ground (arith, h)
contains-add_url us (some v) u h = ground (arith, h, contains-add us v u, eq_iff v u)

pub contained :
    (us : List String) (es : Dict BookmarkNode) (u : String)
    → (contains us u ≡ true) ⊎ HasUrl es u × ((u == "") ≡ false)
    → contains (server_urls us es) u ≡ true
unfolding server_urls get
contained us [] u (inl h) = h
contained us [] u (inr ((l, n, e, v), ne)) = absurd (ground (arith, e))
contained us ((k, m) ∷ es) u (inl h) =
    contained (add_url us m.url) es u (inl (contains-add_url us m.url u (inl h)))
contained us ((k, m) ∷ es) u (inr ((l, n, e, v), ne)) = elim (Bool-cases (k == l)) [
  | inl here ↦
      contained (add_url us m.url) es u
        (inl (contains-add_url us m.url u (inr (grind (arith, e, here, v), ne))))
  | inr later ↦ contained (add_url us m.url) es u (inr ((l, n, ground (arith, e, later), v), ne))
]

add_url-cases :
    (us : List String) (o : Option String) (u : String)
    → contains (add_url us o) u ≡ true
    → (contains us u ≡ true) ⊎ (o ≡ some u)
add_url-cases us none u h = inl h
add_url-cases us (some v) u h = ground (arith, h, contains-add us v u, eq_iff v u)

pub found_url :
    (us : List String) (es : Dict BookmarkNode) (u : String)
    → KeysDistinct es
    → contains (server_urls us es) u ≡ true
    → (contains us u ≡ true) ⊎ HasUrl es u
unfolding server_urls get
found_url us [] u d h = inl h
found_url us ((k, m) ∷ es) u d h = elim (found_url (add_url us m.url) es u d.1 h) [
  | inl c ↦ elim (add_url-cases us m.url u c) [
    | inl c' ↦ inl c'
    | inr e ↦ inr (k, m, ground (arith, eq_iff k k), e)
  ]
  | inr (l, n, e, v) ↦ inr (l, n, ground (arith, d.0, eq_iff k l, e), v)
]
