-- ===== src/Bookmarks/Orphans/Closure.antt =====
-- What remains is the largest part of the document in which every entry has a parent.
use vaultmarks.Shared.{
  ℕ, zero, suc, ◌≤◌, ◌<◌, String, true, false, some, List, [], ◌∷◌, ◌≡◌, refl, arith, eq_iff, ◌⊎◌,
  inl, inr, length, or_else, Bool-cases, Option-cases, subst, sym, ap,
}
use vaultmarks.Shared.Dict.{Dict, get, get-delete, length-delete-le, length-delete-lt}
use vaultmarks.Bookmarks.Node.{BookmarkNode}
use vaultmarks.Bookmarks.Mapping.{Mapping}
use vaultmarks.Shared.Dict.{KeysDistinct, delete-KeysDistinct}
use vaultmarks.Bookmarks.Orphans.{
  State, anchored, drop_orphan, drop_orphans, fixed_point, effective_desired,
}

module _ (m : Mapping) where
  -- Every entry's parent is a canonical root, another entry, or mapped.
  abbrev pub IsClosed : Dict BookmarkNode → Type 0
  IsClosed d =
      (id : String) (n : BookmarkNode) → get d id ≡ some n → anchored m d n.parent_id ≡ true

  abbrev pub IsPart : Dict BookmarkNode → Dict BookmarkNode → Type 0
  IsPart d e = (id : String) (n : BookmarkNode) → get d id ≡ some n → get e id ≡ some n

  anchored_mono :
      (d e : Dict BookmarkNode) (pid : String)
      → IsPart d e
      → anchored m d pid ≡ true
      → anchored m e pid ≡ true
  unfolding anchored
  anchored_mono d e pid p h = elim (Option-cases (get d pid)) [
    | inl no_d ↦ ground arith
    | inr (n, in_d) ↦ ground (arith, p pid n in_d)
  ]

  drop_orphan-IsPart :
      (s : State) (id : String) (n : BookmarkNode)
      → IsPart (drop_orphan m s id n).effective s.effective
  unfolding drop_orphan
  drop_orphan-IsPart s id n k x h = ground (arith, get-delete s.effective id k)

  -- A closed part of the document is not touched.
  drop_orphan_keeps :
      (c : Dict BookmarkNode) (s : State) (id : String) (n : BookmarkNode)
      → IsClosed c
      → IsPart c s.effective
      → get s.effective id ≡ some n
      → IsPart c (drop_orphan m s id n).effective
  unfolding drop_orphan
  drop_orphan_keeps c s id n cl p e k x h = ground (
    arith,
    get-delete s.effective id k,
    eq_iff id k,
    p k x h,
    anchored_mono c s.effective n.parent_id p,
    cl k x h,
  )

  -- The entries still to be looked at are all there.
  abbrev Remain : List (String × BookmarkNode) → State → Type 0
  Remain es s = (k : String) (n : BookmarkNode) → get es k ≡ some n → get s.effective k ≡ some n

  Remain-head :
      (e : String × BookmarkNode) (es : List (String × BookmarkNode)) (s : State)
      → Remain (e ∷ es) s
      → get s.effective e.0 ≡ some e.1
  unfolding get
  Remain-head e es s r = r e.0 e.1 (ground (arith, eq_iff e.0 e.0))

  Remain-tail :
      (e : String × BookmarkNode) (es : List (String × BookmarkNode)) (s : State)
      → KeysDistinct (e ∷ es)
      → Remain (e ∷ es) s
      → Remain es (drop_orphan m s e.0 e.1)
  unfolding drop_orphan get
  Remain-tail e es s d r k n h = ground (arith, r k n, get-delete s.effective e.0 k, eq_iff e.0 k)

  drop_orphan-KeysDistinct :
      (s : State) (id : String) (n : BookmarkNode)
      → KeysDistinct s.effective
      → KeysDistinct (drop_orphan m s id n).effective
  unfolding drop_orphan
  drop_orphan-KeysDistinct s id n d = ground (arith, delete-KeysDistinct s.effective id d)

  drop_orphan_shrinks :
      (s : State) (id : String) (n : BookmarkNode)
      → get s.effective id ≡ some n
      → (length (drop_orphan m s id n).effective ≤ length s.effective)
        × ((drop_orphan m s id n ≡ s)
            ⊎ (length (drop_orphan m s id n).effective < length s.effective))
  unfolding drop_orphan
  drop_orphan_shrinks s id n h =
      ground (arith, length-delete-le s.effective id, length-delete-lt s.effective id {v = n} h)

  -- What one round does: it only drops entries, none of a closed part, and where it finds an
  -- orphan there are fewer.
  record IsRound (s s' : State) : Type 0 where
    part : IsPart s'.effective s.effective
    distinct : KeysDistinct s.effective → KeysDistinct s'.effective
    keeps : (c : Dict BookmarkNode) → IsClosed c → IsPart c s.effective → IsPart c s'.effective
    smaller : length s'.effective ≤ length s.effective
    fewer : (s'.found_orphan ≡ s.found_orphan) ⊎ (length s'.effective < length s.effective)

  IsRound-trans : {s t u : State} → IsRound s t → IsRound t u → IsRound s u
  IsRound-trans a b = record {
    part = λ id n h. a.part id n (b.part id n h);
    distinct = λ d. b.distinct (a.distinct d);
    keeps = λ c cl p. b.keeps c cl (a.keeps c cl p);
    smaller = omega arith;
    fewer = ground arith;
  }

  drop_orphan-IsRound :
      (s : State) (id : String) (n : BookmarkNode)
      → get s.effective id ≡ some n
      → IsRound s (drop_orphan m s id n)
  drop_orphan-IsRound s id n h = record {
    part = drop_orphan-IsPart s id n;
    distinct = drop_orphan-KeysDistinct s id n;
    keeps = λ c cl p. drop_orphan_keeps c s id n cl p h;
    smaller = (drop_orphan_shrinks s id n h).0;
    fewer = ground (arith, drop_orphan_shrinks s id n h);
  }

  drop_orphans-IsRound :
      (s : State) (es : List (String × BookmarkNode))
      → KeysDistinct es
      → Remain es s
      → IsRound s (drop_orphans m s es)
  unfolding drop_orphans
  drop_orphans-IsRound s [] d r = record {
    part = λ id n h. h;
    distinct = λ h. h;
    keeps = λ c cl p. p;
    smaller = omega arith;
    fewer = inl refl;
  }
  drop_orphans-IsRound s (e ∷ es) d r =
      IsRound-trans (drop_orphan-IsRound s e.0 e.1 (Remain-head e es s r))
        (drop_orphans-IsRound (drop_orphan m s e.0 e.1) es d.1 (Remain-tail e es s d r))

  drop_orphan-found :
      (s : State) (id : String) (n : BookmarkNode)
      → s.found_orphan ≡ true
      → (drop_orphan m s id n).found_orphan ≡ true
  unfolding drop_orphan
  drop_orphan-found s id n h = ground arith

  drop_orphans-found :
      (s : State) (es : List (String × BookmarkNode))
      → s.found_orphan ≡ true
      → (drop_orphans m s es).found_orphan ≡ true
  unfolding drop_orphans
  drop_orphans-found s [] h = h
  drop_orphans-found s (e ∷ es) h =
      drop_orphans-found (drop_orphan m s e.0 e.1) es (drop_orphan-found s e.0 e.1 h)

  drop_orphan_cases :
      (s : State) (id : String) (n : BookmarkNode)
      → ((anchored m s.effective n.parent_id ≡ true) × (drop_orphan m s id n ≡ s))
        ⊎ ((drop_orphan m s id n).found_orphan ≡ true)
  unfolding drop_orphan
  drop_orphan_cases s id n = ground arith

  -- A round that finds no orphan changed nothing, and every entry is anchored.
  quiet :
      (s : State) (es : List (String × BookmarkNode))
      → (drop_orphans m s es).found_orphan ≡ false
      → (drop_orphans m s es ≡ s)
        × ((k : String) (n : BookmarkNode)
            → get es k ≡ some n
            → anchored m s.effective n.parent_id ≡ true)
  unfolding drop_orphans get
  quiet s [] h = (refl, λ k n g. absurd (ground arith))
  quiet s (e ∷ es) h = elim (drop_orphan_cases s e.0 e.1) [
    | inr found ↦ absurd (ground (arith, drop_orphans-found (drop_orphan m s e.0 e.1) es found))
    | inl (ok, same) ↦
        let (unchanged, all) =
          quiet s es (subst (λ t. (drop_orphans m t es).found_orphan ≡ false) same h) in
        (
          subst (λ t. drop_orphans m t es ≡ s) (sym same) unchanged,
          λ k n g. ground (arith, all k n, eq_iff e.0 k),
        )
  ]

  abbrev begin : Dict BookmarkNode → State
  begin d = record { effective = d; found_orphan = false }

  fixed_point-IsClosed :
      (fuel : ℕ) (d : Dict BookmarkNode)
      → length d < fuel
      → KeysDistinct d
      → (out : Dict BookmarkNode) × (fixed_point fuel m d ≡ some out)
        × IsClosed out
        × IsPart out d
        × ((c : Dict BookmarkNode) → IsClosed c → IsPart c d → IsPart c out)
  unfolding fixed_point
  fixed_point-IsClosed zero d h i = absurd (omega arith)
  fixed_point-IsClosed (suc fuel) d h i =
      let s = drop_orphans m (begin d) d in
      let round = drop_orphans-IsRound (begin d) d i (λ k n g. g) in
      elim (Bool-cases s.found_orphan) [
        | inl found ↦
            let (out, e, closed, part, largest) =
              fixed_point-IsClosed fuel s.effective (ground (arith, round.fewer, round.smaller))
                (round.distinct i) in
            (
              out,
              rw found e,
              closed,
              (λ id n g. round.part id n (part id n g)),
              λ c cl p. largest c cl (round.keeps c cl p),
            )
        | inr no_orphan ↦
            let (same, all) = quiet (begin d) d no_orphan in
            (d, rw no_orphan (ap (λ t. some t.effective) same), all, (λ id n g. g), λ c cl p. p)
      ]

  -- On entries with distinct ids the rounds end, and what they leave is a part of the document in
  -- which every entry's parent is a canonical root, an entry that is left, or mapped; and every
  -- other such part of the document is within it.
  pub effective_desired_largest :
      (desired : Dict BookmarkNode)
      → KeysDistinct desired
      → (out : Dict BookmarkNode) × (effective_desired m desired ≡ some out)
        × IsClosed out
        × IsPart out desired
        × ((c : Dict BookmarkNode) → IsClosed c → IsPart c desired → IsPart c out)
  unfolding effective_desired
  effective_desired_largest desired i =
      fixed_point-IsClosed (suc (length desired)) desired (omega arith) i

  -- The rounds leave no id twice.
  fixed_point-KeysDistinct :
      (fuel : ℕ) (d : Dict BookmarkNode) {out : Dict BookmarkNode}
      → KeysDistinct d
      → fixed_point fuel m d ≡ some out
      → KeysDistinct out
  unfolding fixed_point
  fixed_point-KeysDistinct zero d {out} i h = absurd (ground arith)
  fixed_point-KeysDistinct (suc fuel) d {out} i h =
      let s = drop_orphans m (begin d) d in
      let round = drop_orphans-IsRound (begin d) d i (λ k n g. g) in
      ground (arith, fixed_point-KeysDistinct fuel s.effective {out = out} (round.distinct i), h)

  pub effective_desired-KeysDistinct :
      (desired : Dict BookmarkNode)
      → KeysDistinct desired
      → KeysDistinct (or_else (effective_desired m desired) desired)
  unfolding effective_desired
  effective_desired-KeysDistinct desired i = elim (Option-cases (effective_desired m desired)) [
    | inl e ↦ rw e i
    | inr (out, e) ↦ rw e (fixed_point-KeysDistinct (suc (length desired)) desired i e)
  ]
