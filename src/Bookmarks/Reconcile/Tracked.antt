-- ===== src/Bookmarks/Reconcile/Tracked.antt =====
-- What `reconcile` keeps of the mapping: the two maps are inverse to one another.
use vaultmarks.Shared.{
  String, false, none, some, List, [], ◌∷◌, ◌==◌, ◌⊎◌, ◌≡◌, refl, arith, eq_iff, inl, inr,
  Bool-cases, Option-cases,
}
use vaultmarks.Shared.Dict.{Dict, get, KeysDistinct, delete-KeysDistinct}
use vaultmarks.Bookmarks.Node.{Item}
use vaultmarks.Bookmarks.Mapping.{Mapping, unlink}
use vaultmarks.Bookmarks.Mapping.Bijection.{IsBijective, unlink-IsBijective}
use vaultmarks.Bookmarks.Roots.{Roots}
use vaultmarks.Bookmarks.Browser.{Browser}
use vaultmarks.Bookmarks.Offline.Phases.{get-unlink, back-unlink}
use vaultmarks.Bookmarks.Listeners.{loro_id_of}
use vaultmarks.Bookmarks.Reconcile.{forget, forget_all, purge_stale, purge_all_stale}

-- The maps are inverse to one another, and no document id stands twice.
pub record IsTracked (m : Mapping) : Type 0 where
  pub bijective : IsBijective m
  pub distinct : KeysDistinct m.loro_to_chrome

unlink-IsTracked :
    (l c : String) (m : Mapping)
    → get m.loro_to_chrome l ≡ some c
    → IsTracked m
    → IsTracked (unlink l c m)
unlink-IsTracked l c m e t = record {
  bijective = unlink-IsBijective l c m t.bijective e;
  distinct = unfold unlink in delete-KeysDistinct m.loro_to_chrome l t.distinct;
}

-- A pair that is gone already is forgotten again.
gone-IsTracked :
    (l c : String) (m : Mapping)
    → get m.loro_to_chrome l ≡ none
    → get m.chrome_to_loro c ≡ none
    → IsTracked m
    → IsTracked (unlink l c m)
gone-IsTracked l c m e f t = record {
  bijective = record {
    forth = λ l' c' h. ground (
      arith,
      get-unlink l c m l',
      back-unlink l c m c',
      t.bijective.forth l' c',
      eq_iff l l',
      eq_iff c c',
    );
    back = λ c' l' h. ground (
      arith,
      get-unlink l c m l',
      back-unlink l c m c',
      t.bijective.back c' l',
      eq_iff l l',
      eq_iff c c',
    );
  };
  distinct = unfold unlink in delete-KeysDistinct m.loro_to_chrome l t.distinct;
}

-- The pair is in the mapping, or neither of its ids is.
abbrev pub IsPair : String → String → Mapping → Type 0
IsPair l c m =
    (get m.loro_to_chrome l ≡ some c)
    ⊎ (get m.loro_to_chrome l ≡ none) × (get m.chrome_to_loro c ≡ none)

pub unlink_pair-IsTracked :
    (l c : String) (m : Mapping) → IsPair l c m → IsTracked m → IsTracked (unlink l c m)
unlink_pair-IsTracked l c m (inl e) t = unlink-IsTracked l c m e t
unlink_pair-IsTracked l c m (inr (e, f)) t = gone-IsTracked l c m e f t

unlink-IsPair :
    (l c l' c' : String) (m : Mapping)
    → get m.loro_to_chrome l' ≡ some c'
    → IsTracked m
    → IsPair l c m
    → IsPair l c (unlink l' c' m)
unlink-IsPair l c l' c' m e t p = ground (
  arith,
  get-unlink l' c' m l,
  back-unlink l' c' m c,
  t.bijective.forth l c,
  t.bijective.forth l' c',
  eq_iff l' l,
  eq_iff c' c,
  p,
)

-- What a step only takes away.
abbrev pub IsLess : Mapping → Mapping → Type 0
IsLess m m' = (l c : String) → get m'.loro_to_chrome l ≡ some c → get m.loro_to_chrome l ≡ some c

pub unlink-IsLess : (l c : String) (m : Mapping) → IsLess m (unlink l c m)
unlink-IsLess l c m k v h = ground (arith, get-unlink l c m k, h)

pub loro_id_of-cases :
    (m : Mapping) (c : String)
    → (loro_id_of m c ≡ none)
      ⊎ ((l : String) × (loro_id_of m c ≡ some l) × (get m.chrome_to_loro c ≡ some l))
unfolding loro_id_of
loro_id_of-cases m c = elim (Option-cases (get m.chrome_to_loro c)) [
  | inl e ↦ inl (rw (e, loro_id_of) refl)
  | inr (l, e) ↦ elim (Bool-cases (l == "")) [
    | inl blank ↦ inl (rw (e, blank, loro_id_of) refl)
    | inr named ↦ inr (l, rw (e, named, loro_id_of) refl, e)
  ]
]

forget-IsTracked :
    (m : Mapping) (x : String)
    → IsTracked m
    → IsTracked (forget m x)
      × IsLess m (forget m x)
      × ((l c : String) → IsPair l c m → IsPair l c (forget m x))
unfolding forget
forget-IsTracked m x t = elim (loro_id_of-cases m x) [
  | inl e ↦ rw (e, forget) (t, (λ l c h. h), λ l c p. p)
  | inr (l', e, f) ↦
      let there = t.bijective.back x l' f in
      rw (e, forget)
        (
          unlink-IsTracked l' x m there t,
          unlink-IsLess l' x m,
          λ l c p. unlink-IsPair l c l' x m there t p,
        )
]

pub forget_all-IsTracked :
    (m : Mapping) (xs : List String)
    → IsTracked m
    → IsTracked (forget_all m xs)
      × IsLess m (forget_all m xs)
      × ((l c : String) → IsPair l c m → IsPair l c (forget_all m xs))
unfolding forget_all
forget_all-IsTracked m [] t = (t, (λ l c h. h), λ l c p. p)
forget_all-IsTracked m (x ∷ xs) t =
    let (t', less, pairs) = forget-IsTracked m x t in
    let (t'', less', pairs') = forget_all-IsTracked (forget m x) xs t' in
    (t'', (λ l c h. less l c (less' l c h)), λ l c p. pairs' l c (pairs l c p))

module _ (B : Browser) (r : Roots) (key_order : List String → List String) where
  purge_stale-cases :
      (current : Dict Item) (s : B.State) (m : Mapping) (e : String × String)
      → (purge_stale B r key_order current s m e ≡ m)
        ⊎ (purge_stale B r key_order current s m e ≡ unlink e.0 e.1 m)
  unfolding purge_stale
  purge_stale-cases current s m e = ground arith

  purge_stale-IsTracked :
      (current : Dict Item) (s : B.State) (m : Mapping) (e : String × String) (es : Dict String)
      → KeysDistinct (e ∷ es)
      → ((l c : String) → get (e ∷ es) l ≡ some c → get m.loro_to_chrome l ≡ some c)
      → IsTracked m
      → IsTracked (purge_stale B r key_order current s m e)
        × IsLess m (purge_stale B r key_order current s m e)
        × ((l c : String)
            → get es l ≡ some c
            → get (purge_stale B r key_order current s m e).loro_to_chrome l ≡ some c)
  unfolding get purge_stale
  purge_stale-IsTracked current s m e es d h t =
      let first : get m.loro_to_chrome e.0 ≡ some e.1 =
        h e.0 e.1 (ground (arith, eq_iff e.0 e.0)) in
      let rest : (l c : String)
          → get es l ≡ some c
          → (get m.loro_to_chrome l ≡ some c) × ((e.0 == l) ≡ false) =
        λ l c g. ground (arith, h l c, eq_iff e.0 l, d.0) in
      elim (purge_stale-cases current s m e) [
        | inl p ↦ rw p (t, (λ l c q. q), λ l c g. (rest l c g).0)
        | inr p ↦ rw p (
          unlink-IsTracked e.0 e.1 m first t,
          unlink-IsLess e.0 e.1 m,
          λ l c g. ground (arith, get-unlink e.0 e.1 m l, rest l c g),
        )
      ]

  pub purge_all_stale-IsTracked :
      (current : Dict Item) (s : B.State) (m : Mapping) (es : Dict String)
      → KeysDistinct es
      → ((l c : String) → get es l ≡ some c → get m.loro_to_chrome l ≡ some c)
      → IsTracked m
      → IsTracked (purge_all_stale B r key_order current s m es)
        × IsLess m (purge_all_stale B r key_order current s m es)
  unfolding purge_all_stale
  purge_all_stale-IsTracked current s m [] d h t = (t, λ l c p. p)
  purge_all_stale-IsTracked current s m (e ∷ es) d h t =
      let (t', less, rest) = purge_stale-IsTracked current s m e es d h t in
      let (t'', less') =
        purge_all_stale-IsTracked current s (purge_stale B r key_order current s m e) es d.1 rest
          t' in
      (t'', λ l c p. less l c (less' l c p))
