-- ===== src/Bookmarks/Mapping/Bijection.antt =====
-- The two maps of the mapping are inverse to one another.
use vaultmarks.Shared.{
  ◌≢◌, Option-cases, sym, String, none, some, [], ◌∷◌, ◌≡◌, refl, arith, eq_iff, if◌then◌else◌, inl,
  inr, ◌∙◌,
}
use vaultmarks.Shared.Dict.{KeysDistinct, Dict, get, has, put, put_all, get-put, get-delete}
use vaultmarks.Bookmarks.Mapping.{Mapping, link, unlink, load_mapping, save_mapping, swapped}

pub record IsBijective (m : Mapping) : Type 0 where
  pub forth : (l c : String) → get m.loro_to_chrome l ≡ some c → get m.chrome_to_loro c ≡ some l
  pub back : (c l : String) → get m.chrome_to_loro c ≡ some l → get m.loro_to_chrome l ≡ some c

-- Recording a pair of ids that are both new keeps the two maps inverse to one another.
pub link-IsBijective :
    (l c : String) (m : Mapping)
    → IsBijective m
    → get m.loro_to_chrome l ≡ none
    → get m.chrome_to_loro c ≡ none
    → IsBijective (link l c m)
unfolding link
link-IsBijective l c m b fl fc = record {
  forth = λ l' c' h. ground (
    arith,
    get-put m.loro_to_chrome l c l',
    get-put m.chrome_to_loro c l c',
    eq_iff l l',
    eq_iff c c',
    b.forth l' c',
    b.back c' l',
  );
  back = λ c' l' h. ground (
    arith,
    get-put m.loro_to_chrome l c l',
    get-put m.chrome_to_loro c l c',
    eq_iff l l',
    eq_iff c c',
    b.forth l' c',
    b.back c' l',
  );
}

-- Forgetting a recorded pair keeps the two maps inverse to one another.
pub unlink-IsBijective :
    (l c : String) (m : Mapping)
    → IsBijective m
    → get m.loro_to_chrome l ≡ some c
    → IsBijective (unlink l c m)
unfolding unlink
unlink-IsBijective l c m b h0 = record {
  forth = λ l' c' h. ground (
    arith,
    get-delete m.loro_to_chrome l l',
    get-delete m.chrome_to_loro c c',
    eq_iff l l',
    eq_iff c c',
    b.forth l' c',
    b.back c' l',
    b.forth l c,
  );
  back = λ c' l' h. ground (
    arith,
    get-delete m.loro_to_chrome l l',
    get-delete m.chrome_to_loro c c',
    eq_iff l l',
    eq_iff c c',
    b.forth l' c',
    b.back c' l',
    b.forth l c,
  );
}

get-put_all :
    (m es : Dict String) (k : String)
    → KeysDistinct es
    → get (put_all m es) k ≡ (if has es k then get es k else get m k)
unfolding put_all get
get-put_all m [] k h = refl
get-put_all m ((j, v) ∷ es) k h =
    ground (arith, get-put_all (put m j v) es k h.1, get-put m j v k, eq_iff j k, h.0)

get_of_swapped :
    (d : Dict String) (c l : String)
    → KeysDistinct d
    → get (swapped d) c ≡ some l
    → get d l ≡ some c
unfolding get
get_of_swapped [] c l h e = cc
get_of_swapped ((l0, c0) ∷ d) c l h e =
    ground (arith, get_of_swapped d c l h.1, eq_iff c0 c, eq_iff l0 l, h.0)

swapped_of_get : (d : Dict String) (c l : String) → get d l ≡ some c → get (swapped d) c ≢ none
unfolding get
swapped_of_get [] c l e = λ x. cc
swapped_of_get ((l0, c0) ∷ d) c l e = ground (arith, swapped_of_get d c l, eq_iff c0 c, eq_iff l0 l)

abbrev IsInjective : Dict String → Type 0
IsInjective d = (l l' c : String) → get d l ≡ some c → get d l' ≡ some c → l ≡ l'

IsInjective-tail :
    (l0 c0 : String) (d : Dict String)
    → get d l0 ≡ none
    → IsInjective ((l0, c0) ∷ d)
    → IsInjective d
unfolding get
IsInjective-tail l0 c0 d n inj l l' c h h' = ground (arith, inj l l' c, eq_iff l0 l, eq_iff l0 l')

KeysDistinct-swapped : (d : Dict String) → KeysDistinct d → IsInjective d → KeysDistinct (swapped d)
unfolding get
KeysDistinct-swapped [] h inj = tt
KeysDistinct-swapped ((l0, c0) ∷ d) h inj = (
  elim (Option-cases (get (swapped d) c0)) [
    | inl e ↦ e
    | inr (l', e) ↦
        absurd
          (ground (arith, get_of_swapped d c0 l' h.1 e, inj l0 l' c0, eq_iff l0 l0, eq_iff l0 l'))
  ],
  KeysDistinct-swapped d h.1 (IsInjective-tail l0 c0 d h.0 inj),
)

module _ (m : Mapping) (b : IsBijective m) (h : KeysDistinct m.loro_to_chrome) where
  get-swapped : (c : String) → get (swapped m.loro_to_chrome) c ≡ get m.chrome_to_loro c
  get-swapped c = elim (Option-cases (get (swapped m.loro_to_chrome) c)) [
    | inl e ↦ elim (Option-cases (get m.chrome_to_loro c)) [
      | inl e' ↦ e ∙ sym e'
      | inr (l, e') ↦ absurd (swapped_of_get m.loro_to_chrome c l (b.back c l e') e)
    ]
    | inr (l, e) ↦ e ∙ sym (b.forth l c (get_of_swapped m.loro_to_chrome c l h e))
  ]

  loaded_loro :
      (l : String) → get (load_mapping (save_mapping m)).loro_to_chrome l ≡ get m.loro_to_chrome l
  unfolding load_mapping save_mapping get
  loaded_loro l = ground (arith, get-put_all [] m.loro_to_chrome l h)

  loaded_chrome :
      (c : String) → get (load_mapping (save_mapping m)).chrome_to_loro c ≡ get m.chrome_to_loro c
  unfolding load_mapping save_mapping get
  loaded_chrome c = ground (
    arith,
    get-put_all [] (swapped m.loro_to_chrome) c (
        KeysDistinct-swapped m.loro_to_chrome h
          (λ l l' c' p q. ground (arith, b.forth l c' p, b.forth l' c' q))),
    get-swapped c,
  )

  -- Loading what was saved gives maps with the entries of the old ones in both directions, and
  -- they are inverse to one another, when the old ones were and no key stands twice.
  pub load-save :
      IsBijective (load_mapping (save_mapping m))
      × ((l : String)
          → get (load_mapping (save_mapping m)).loro_to_chrome l ≡ get m.loro_to_chrome l)
      × ((c : String)
          → get (load_mapping (save_mapping m)).chrome_to_loro c ≡ get m.chrome_to_loro c)
  load-save = (
    record {
      forth = λ l c e. loaded_chrome c ∙ b.forth l c (sym (loaded_loro l) ∙ e);
      back = λ c l e. loaded_loro l ∙ b.back c l (sym (loaded_chrome c) ∙ e);
    },
    loaded_loro,
    loaded_chrome,
  )
