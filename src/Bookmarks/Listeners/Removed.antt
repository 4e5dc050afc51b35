-- ===== src/Bookmarks/Listeners/Removed.antt =====
-- A removed folder takes exactly its own nodes out of the mapping.
use vaultmarks.Shared.{
  String, true, false, none, some, List, [], ◌∷◌, ◌++◌, ◌==◌, if◌then◌else◌, ◌≡◌, ◌∙◌, refl, arith,
  eq_iff, inl, inr, Option-cases, contains, contains-append,
}
use vaultmarks.Shared.Dict.{get, has}
use vaultmarks.Bookmarks.Node.{Tree, Forest, node, nil, cons}
use vaultmarks.Bookmarks.Mapping.{unlink, save_mapping}
use vaultmarks.Bookmarks.Mapping.Bijection.{IsBijective, unlink-IsBijective}
use vaultmarks.Bookmarks.Offline.{Bridge}
use vaultmarks.Bookmarks.Offline.Phases.{get-unlink, back-unlink}
use vaultmarks.Bookmarks.Listeners.{loro_id_of, purge_node, purge, purge_all, on_remove}
use vaultmarks.Crdt.{Loro}

-- The ids of a tree, a node before what is below it.
abbrev mutual
  pub ids : Tree → List String
  ids (node i ts) = i.id ∷ all_ids ts

  pub all_ids : Forest → List String
  all_ids nil = []
  all_ids (cons t ts) = ids t ++ all_ids ts

module _ (L : Loro) where
  -- The mapping is a bijection into the document, and no document id is empty.
  pub record IsMapped (b : Bridge L.Doc) : Type 0 where
    pub bijective : IsBijective b.mapping
    pub present :
        (l c : String)
        → get b.mapping.loro_to_chrome l ≡ some c
        → has (L.get_all_bookmarks b.doc) l ≡ true
    pub named : (c l : String) → get b.mapping.chrome_to_loro c ≡ some l → (l == "") ≡ false

  removed-IsMapped :
      (b : Bridge L.Doc) (l c : String)
      → get b.mapping.chrome_to_loro c ≡ some l
      → IsMapped b
      → IsMapped (record b { mapping = unlink l c b.mapping; doc = L.delete_bookmark l b.doc })
  removed-IsMapped b l c e k = record {
    bijective = unlink-IsBijective l c b.mapping k.bijective (k.bijective.back c l e);
    present = λ l' c' h.
        ground (arith, get-unlink l c b.mapping l', L.get-removed b.doc l l', k.present l' c');
    named = λ c' l' h. ground (arith, back-unlink l c b.mapping c', k.named c' l');
  }

  purge_node-IsMapped : (b : Bridge L.Doc) (id : String) → IsMapped b → IsMapped (purge_node L b id)
  unfolding purge_node loro_id_of
  purge_node-IsMapped b id k = elim (Option-cases (get b.mapping.chrome_to_loro id)) [
    | inl e ↦ rw (e, purge_node, loro_id_of) k
    | inr (l, e) ↦ rw (e, k.named id l e, purge_node, loro_id_of) (removed-IsMapped b l id e k)
  ]

  get-purge_node :
      (b : Bridge L.Doc) (id c : String)
      → IsMapped b
      → get (purge_node L b id).mapping.chrome_to_loro c
        ≡ (if id == c then none else get b.mapping.chrome_to_loro c)
  unfolding purge_node loro_id_of
  get-purge_node b id c k = elim (Option-cases (get b.mapping.chrome_to_loro id)) [
    | inl e ↦ rw (e, purge_node, loro_id_of) (ground (arith, eq_iff id c, e))
    | inr (l, e) ↦ rw (e, k.named id l e, purge_node, loro_id_of) (back-unlink l id b.mapping c)
  ]

  mutual
    unfolding purge purge_all

    purge-IsMapped : (b : Bridge L.Doc) (t : Tree) → IsMapped b → IsMapped (purge L b t)
    purge-IsMapped b (node i ts) k =
        purge_all-IsMapped (purge_node L b i.id) ts (purge_node-IsMapped b i.id k)

    purge_all-IsMapped : (b : Bridge L.Doc) (ts : Forest) → IsMapped b → IsMapped (purge_all L b ts)
    purge_all-IsMapped b nil k = k
    purge_all-IsMapped b (cons t ts) k = purge_all-IsMapped (purge L b t) ts (purge-IsMapped b t k)

  mutual
    unfolding purge purge_all contains

    get-purge :
        (b : Bridge L.Doc) (t : Tree) (c : String)
        → IsMapped b
        → get (purge L b t).mapping.chrome_to_loro c
          ≡ (if contains (ids t) c then none else get b.mapping.chrome_to_loro c)
    get-purge b (node i ts) c k =
        get-purge_all (purge_node L b i.id) ts c (purge_node-IsMapped b i.id k)
        ∙ ground (arith, get-purge_node b i.id c k)

    get-purge_all :
        (b : Bridge L.Doc) (ts : Forest) (c : String)
        → IsMapped b
        → get (purge_all L b ts).mapping.chrome_to_loro c
          ≡ (if contains (all_ids ts) c then none else get b.mapping.chrome_to_loro c)
    get-purge_all b nil c k = refl
    get-purge_all b (cons t ts) c k =
        get-purge_all (purge L b t) ts c (purge-IsMapped b t k)
        ∙ ground (arith, get-purge b t c k, contains-append (ids t) (all_ids ts) c)

  -- For any document library with the behaviour of a map, and a mapping that is a bijection into the
  -- document without empty document ids: the listener for a removed bookmark takes exactly the ids
  -- of the removed node and of all below it out of the mapping, leaves a mapping that is a bijection
  -- into the document, and saves it.
  pub on_remove_exact :
      (b : Bridge L.Doc) (t : Tree)
      → IsMapped b
      → ((c : String)
          → get (on_remove L b t).mapping.chrome_to_loro c
            ≡ (if contains (ids t) c then none else get b.mapping.chrome_to_loro c))
        × IsMapped (on_remove L b t)
        × ((on_remove L b t).saved ≡ save_mapping (on_remove L b t).mapping)
  unfolding on_remove
  on_remove_exact b t k =
      let p = purge-IsMapped b t k in
      (
        (λ c. get-purge b t c k),
        record { bijective = p.bijective; present = p.present; named = p.named },
        refl,
      )
