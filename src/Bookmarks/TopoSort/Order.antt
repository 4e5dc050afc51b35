-- ===== src/Bookmarks/TopoSort/Order.antt =====
-- `topoSort` puts each entry behind its parent, where that is possible.
use vaultmarks.Shared.{
  ℕ, zero, suc, ◌<◌, String, true, false, some, List, [], ◌∷◌, ◌++◌, ◌≡◌, refl, arith, eq_iff,
  length, contains, add, contains-add, Bool-cases, inl, inr, ◌⊎◌, sym, ◌∙◌, nat_beq, ap, subst,
}
use vaultmarks.Shared.Dict.{Dict, get, has, delete, get-delete}
use vaultmarks.Bookmarks.Node.{BookmarkNode}
use vaultmarks.Shared.Dict.{KeysDistinct}
use vaultmarks.Bookmarks.TopoSort.{Entry, State, place, sweep, rounds, start, topo_sort}
use vaultmarks.Bookmarks.TopoSort.Total.{
  IsSplit, candidates, candidates-KeysDistinct, candidates-AllRemain, reset, sweep-IsSplit,
  start-IsSplit, topo_sort_total, put_all-append, get-candidates,
}

-- Each entry's parent is available from the start, or is an entry further to the left.
abbrev pub IsOrdered : List String → List Entry → Type 0
IsOrdered available [] = Unit
IsOrdered available (e ∷ es) =
    (contains available e.1.parent_id ≡ true) × IsOrdered (add available e.0) es

abbrev available_after : List String → List Entry → List String
available_after available [] = available
available_after available (e ∷ es) = available_after (add available e.0) es

available_after-append :
    (a : List String) (es : List Entry) (e : Entry)
    → available_after a (es ++ e ∷ []) ≡ add (available_after a es) e.0
available_after-append a [] e = refl
available_after-append a (f ∷ es) e = available_after-append (add a f.0) es e

IsOrdered-append :
    (a : List String) (es : List Entry) (e : Entry)
    → IsOrdered a es
    → contains (available_after a es) e.1.parent_id ≡ true
    → IsOrdered a (es ++ e ∷ [])
IsOrdered-append a [] e o h = (h, tt)
IsOrdered-append a (f ∷ es) e o h = (o.0, IsOrdered-append (add a f.0) es e o.1 h)

some_of_has :
    (m : Dict BookmarkNode) (k : String) → has m k ≡ true → (n : BookmarkNode) × (get m k ≡ some n)
some_of_has m k h = ground arith

first :
    (m : Dict BookmarkNode) → nat_beq (length m) 0 ≡ false → (e : Entry) × (get m e.0 ≡ some e.1)
unfolding get
first [] h = absurd (ground arith)
first (e ∷ m) h = (e, ground (arith, eq_iff e.0 e.0))

rounds_cases :
    (fuel : ℕ) (s : State) {out : List Entry}
    → rounds (suc fuel) s ≡ some out
    → (s.result ≡ out)
      ⊎ ((nat_beq (length s.remaining) 0 ≡ false)
          × ((rounds fuel (sweep (reset s) (candidates s)) ≡ some out)
              ⊎ ((sweep (reset s) (candidates s)).progress ≡ false)))
unfolding rounds
rounds_cases fuel s e = ground arith

module _ (initial : List String) (rank : String → ℕ) where
  -- Each entry's parent is available, or is an entry of lower rank: there is no cycle of parents
  -- and no missing parent.
  abbrev pub HasParents : List String → Dict BookmarkNode → Type 0
  HasParents available entries =
      (id : String) (n : BookmarkNode)
      → get entries id ≡ some n
      → (contains available n.parent_id ≡ true)
        ⊎ ((has entries n.parent_id ≡ true) × (rank n.parent_id < rank id))

  record IsInOrder (s : State) : Type 0 where
    seen : s.available ≡ available_after initial s.result
    ordered : IsOrdered initial s.result
    parents : HasParents s.available s.remaining

  HasParents-delete :
      (a : List String) (m : Dict BookmarkNode) (k : String)
      → HasParents a m
      → HasParents (add a k) (delete m k)
  HasParents-delete a m k p id n h = ground (
    arith,
    get-delete m k id,
    get-delete m k n.parent_id,
    p id n,
    contains-add a k n.parent_id,
    eq_iff k n.parent_id,
  )

  place-IsInOrder : (s : State) (e : Entry) → IsInOrder s → IsInOrder (place s e)
  unfolding place
  place-IsInOrder s e o = elim (Bool-cases (contains s.available e.1.parent_id)) [
    | inl ready ↦
        rw (ready, place)
          (record {
            seen = ap (λ a. add a e.0) o.seen ∙ sym (available_after-append initial s.result e);
            ordered = IsOrdered-append initial s.result e o.ordered (rw (← o.seen) ready);
            parents = HasParents-delete s.available s.remaining e.0 o.parents;
          })
    | inr waits ↦ rw (waits, place) o
  ]

  sweep-IsInOrder : (s : State) (es : List Entry) → IsInOrder s → IsInOrder (sweep s es)
  unfolding sweep
  sweep-IsInOrder s [] o = o
  sweep-IsInOrder s (e ∷ es) o = sweep-IsInOrder (place s e) es (place-IsInOrder s e o)

  place-progress : (s : State) (e : Entry) → s.progress ≡ true → (place s e).progress ≡ true
  unfolding place
  place-progress s e h = ground arith

  sweep-progress : (s : State) (es : List Entry) → s.progress ≡ true → (sweep s es).progress ≡ true
  unfolding sweep
  sweep-progress s [] h = h
  sweep-progress s (e ∷ es) h = sweep-progress (place s e) es (place-progress s e h)

  place_ready :
      (s : State) (e : Entry)
      → contains s.available e.1.parent_id ≡ true
      → (place s e).progress ≡ true
  unfolding place
  place_ready s e h = ground arith

  place_waits : (s : State) (e : Entry) → contains s.available e.1.parent_id ≡ false → place s e ≡ s
  unfolding place
  place_waits s e h = ground arith

  sweep_same :
      (s : State) (e : Entry) (es : List Entry)
      → place s e ≡ s
      → (sweep (place s e) es).progress ≡ false
      → (sweep s es).progress ≡ false
  sweep_same s e es same h = rw same at h

  -- A sweep with no progress changed nothing, and no candidate's parent was available.
  sweep_stuck :
      (s : State) (es : List Entry)
      → (sweep s es).progress ≡ false
      → (sweep s es ≡ s)
        × ((k : String) (n : BookmarkNode)
            → get es k ≡ some n
            → contains s.available n.parent_id ≡ false)
  unfolding sweep get
  sweep_stuck s [] h = (refl, λ k n g. ground arith)
  sweep_stuck s (e ∷ es) h = elim (Bool-cases (contains s.available e.1.parent_id)) [
    | inl ready ↦ absurd (ground (arith, sweep-progress (place s e) es (place_ready s e ready)))
    | inr waits ↦
        let same = place_waits s e waits in
        let (unchanged, none_ready) = sweep_stuck s es (sweep_same s e es same h) in
        (rw same unchanged, λ k n g. ground (arith, none_ready k n, eq_iff e.0 k))
  ]

  -- Where no remaining entry's parent is available, nothing remains.
  descent :
      (s : State)
      → HasParents s.available s.remaining
      → ((k : String) (n : BookmarkNode)
          → get s.remaining k ≡ some n
          → contains s.available n.parent_id ≡ false)
      → (b : ℕ) (k : String) (n : BookmarkNode) → get s.remaining k ≡ some n
      → rank k < b
      → ⊥
  descent s p w zero k n h lt = omega arith
  descent s p w (suc b) k n h lt = elim (p k n h) [
    | inl ready ↦ ground (arith, w k n h)
    | inr (there, lower) ↦
        let (n', h') = some_of_has s.remaining n.parent_id there in
        descent s p w b n.parent_id n' h' (omega arith)
  ]

  rounds-IsOrdered :
      (entries : List Entry) (fuel : ℕ) (s : State) {out : List Entry}
      → IsSplit entries s
      → IsInOrder s
      → rounds fuel s ≡ some out
      → IsOrdered initial out
  unfolding rounds
  rounds-IsOrdered entries zero s i o e = absurd (ground arith)
  rounds-IsOrdered entries (suc fuel) s {out} i o e = elim (rounds_cases fuel s e) [
    | inl done ↦ subst (IsOrdered initial) done o.ordered
    | inr (more, inl next) ↦
        rounds-IsOrdered entries fuel (sweep (reset s) (candidates s))
          (sweep-IsSplit entries (reset s) (candidates s) (candidates-KeysDistinct s i.distinct)
            (candidates-AllRemain s i.distinct) (record { distinct = i.distinct; whole = i.whole }))
          (sweep-IsInOrder (reset s) (candidates s)
            (record { seen = o.seen; ordered = o.ordered; parents = o.parents }))
          next
    | inr (more, inr stuck) ↦
        let (e, there) = first s.remaining more in
        let (_, waits) = sweep_stuck (reset s) (candidates s) stuck in
        absurd (
          descent s o.parents (λ k n h. waits k n (get-candidates s k i.distinct ∙ h))
            (suc (rank e.0)) e.0 e.1 there (omega arith))
  ]

-- On entries with distinct ids, whose parents are available or are entries themselves, with no
-- cycle of parents, `topoSort` ends with a list in which the parent of each entry is available or
-- stands further to the left.
pub topo_sort-IsOrdered :
    (entries : List Entry) (initial : List String) (rank : String → ℕ)
    → KeysDistinct entries
    → HasParents initial rank initial entries
    → (out : List Entry) × (topo_sort entries initial ≡ some out) × IsOrdered initial out
unfolding topo_sort
topo_sort-IsOrdered entries initial rank d p =
    let (out, e, _) = topo_sort_total entries initial d in
    (
      out,
      e,
      rounds-IsOrdered initial rank entries (suc (length entries)) (start entries initial)
          (start-IsSplit entries initial d)
          (record { seen = refl; ordered = tt; parents = rw (put_all-append [] entries d) p }) e,
    )
