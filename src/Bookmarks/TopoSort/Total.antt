-- ===== src/Bookmarks/TopoSort/Total.antt =====
-- `topoSort` ends, and returns each entry exactly once.
use mathlib.Core.List.{Perm, append-nil, append_assoc}
use mathlib.Core.List.Perm
use vaultmarks.Shared.{
  ℕ, zero, suc, ◌≤◌, ◌<◌, String, true, false, none, some, List, [], ◌∷◌, ◌++◌, if◌then◌else◌, ◌≡◌,
  refl, arith, ◌==◌, eq_iff, length, contains, Bool-cases, inl, inr, ◌⊎◌, sym, ◌∙◌, nat_beq,
}
use vaultmarks.Shared.Dict.{
  Dict, get, has, delete, put, put_all, get-delete, length-delete-le, length-delete-lt,
}
use vaultmarks.Bookmarks.Node.{BookmarkNode}
use vaultmarks.Shared.Dict.{KeysDistinct, delete-KeysDistinct}
use vaultmarks.Bookmarks.TopoSort.{
  Entry, State, insert_by_index, sort_by_index, place, sweep, rounds, start, topo_sort,
}

get-insert_by_index :
    (e : Entry) (es : List Entry) (k : String)
    → get es e.0 ≡ none
    → get (insert_by_index e es) k ≡ (if e.0 == k then some e.1 else get es k)
unfolding get insert_by_index
get-insert_by_index e [] k h = refl
get-insert_by_index e (f ∷ es) k h =
    ground (arith, get-insert_by_index e es k, eq_iff e.0 k, eq_iff f.0 k, eq_iff f.0 e.0)

insert_by_index-KeysDistinct :
    (e : Entry) (es : List Entry)
    → get es e.0 ≡ none
    → KeysDistinct es
    → KeysDistinct (insert_by_index e es)
unfolding get insert_by_index
insert_by_index-KeysDistinct e [] h d = (h, tt)
insert_by_index-KeysDistinct e (f ∷ es) h d = ground (
  arith,
  get-insert_by_index e es f.0,
  insert_by_index-KeysDistinct e es,
  eq_iff e.0 f.0,
  eq_iff f.0 e.0,
)

get-sort_by_index :
    (es : List Entry) (k : String) → KeysDistinct es → get (sort_by_index es) k ≡ get es k
unfolding get sort_by_index
get-sort_by_index [] k d = refl
get-sort_by_index (e ∷ es) k d = ground (
  arith,
  get-insert_by_index e (sort_by_index es) k,
  get-sort_by_index es k d.1,
  get-sort_by_index es e.0 d.1,
)

sort_by_index-KeysDistinct : (es : List Entry) → KeysDistinct es → KeysDistinct (sort_by_index es)
unfolding sort_by_index
sort_by_index-KeysDistinct [] d = tt
sort_by_index-KeysDistinct (e ∷ es) d = ground (
  arith,
  insert_by_index-KeysDistinct e (sort_by_index es),
  sort_by_index-KeysDistinct es d.1,
  get-sort_by_index es e.0 d.1,
)

delete-absent : (m : Dict BookmarkNode) (k : String) → get m k ≡ none → delete m k ≡ m
unfolding get delete
delete-absent [] k h = refl
delete-absent (e ∷ m) k h = ground (arith, delete-absent m k)

perm_delete :
    (m : Dict BookmarkNode) (e : Entry)
    → KeysDistinct m
    → get m e.0 ≡ some e.1
    → Perm m (e ∷ delete m e.0)
unfolding get delete
perm_delete [] e d h = absurd (ground arith)
perm_delete (f ∷ m) e d h = elim (Bool-cases (f.0 == e.0)) [
  | inl same ↦
      let fe : f ≡ e = ground (arith, eq_iff f.0 e.0) in
      rw (same, delete-absent m e.0 (ground (arith, eq_iff f.0 e.0)), fe) (Perm.refl (e ∷ m))
  | inr other ↦
      rw other (
        Perm.trans (Perm.cons f (perm_delete m e d.1 (ground arith)))
          (Perm.swap e f (delete m e.0)))
]

-- What the loops keep of the entries that they were given.
pub record IsSplit (entries : List Entry) (s : State) : Type 0 where
  pub distinct : KeysDistinct s.remaining
  pub whole : Perm (s.result ++ s.remaining) entries

-- The candidates still to be looked at all remain.
abbrev pub AllRemain : List Entry → State → Type 0
AllRemain es s = (k : String) (n : BookmarkNode) → get es k ≡ some n → get s.remaining k ≡ some n

AllRemain-head :
    (e : Entry) (es : List Entry) (s : State)
    → AllRemain (e ∷ es) s
    → get s.remaining e.0 ≡ some e.1
unfolding get
AllRemain-head e es s r = r e.0 e.1 (ground (arith, eq_iff e.0 e.0))

pub AllRemain-place :
    (e : Entry) (es : List Entry) (s : State)
    → KeysDistinct (e ∷ es)
    → AllRemain (e ∷ es) s
    → AllRemain es (place s e)
unfolding place get
AllRemain-place e es s d r k n h = ground (arith, r k n, get-delete s.remaining e.0 k, eq_iff e.0 k)

place-IsSplit :
    (entries : List Entry) (s : State) (e : Entry)
    → get s.remaining e.0 ≡ some e.1
    → IsSplit entries s
    → IsSplit entries (place s e)
unfolding place
place-IsSplit entries s e h i = elim (Bool-cases (contains s.available e.1.parent_id)) [
  | inl ready ↦
      rw (ready, place)
        (record {
          distinct = delete-KeysDistinct s.remaining e.0 i.distinct;
          whole = rw append_assoc (
              Perm.trans
                (Perm.append_left s.result (Perm.symm (perm_delete s.remaining e i.distinct h)))
                i.whole);
        })
  | inr waits ↦ rw (waits, place) i
]

pub sweep-IsSplit :
    (entries : List Entry) (s : State) (es : List Entry)
    → KeysDistinct es
    → AllRemain es s
    → IsSplit entries s
    → IsSplit entries (sweep s es)
unfolding sweep
sweep-IsSplit entries s [] d r i = i
sweep-IsSplit entries s (e ∷ es) d r i =
    sweep-IsSplit entries (place s e) es d.1 (AllRemain-place e es s d r)
      (place-IsSplit entries s e (AllRemain-head e es s r) i)

place_shrinks :
    (s : State) (e : Entry)
    → get s.remaining e.0 ≡ some e.1
    → (length (place s e).remaining ≤ length s.remaining)
      × ((place s e ≡ s) ⊎ (length (place s e).remaining < length s.remaining))
unfolding place
place_shrinks s e h =
    ground (arith, length-delete-le s.remaining e.0, length-delete-lt s.remaining e.0 {v = e.1} h)

-- A sweep that makes progress leaves fewer entries.
sweep_shrinks :
    (s : State) (es : List Entry)
    → KeysDistinct es
    → AllRemain es s
    → (length (sweep s es).remaining ≤ length s.remaining)
      × (((sweep s es).progress ≡ s.progress)
          ⊎ (length (sweep s es).remaining < length s.remaining))
unfolding sweep
sweep_shrinks s [] d r = (omega arith, inl refl)
sweep_shrinks s (e ∷ es) d r = ground (
  arith,
  place_shrinks s e (AllRemain-head e es s r),
  sweep_shrinks (place s e) es d.1 (AllRemain-place e es s d r),
)

-- The candidates of a round are the remaining entries.
abbrev pub candidates : State → List Entry
candidates s = sort_by_index s.remaining

pub candidates-KeysDistinct : (s : State) → KeysDistinct s.remaining → KeysDistinct (candidates s)
candidates-KeysDistinct s d = sort_by_index-KeysDistinct s.remaining d

pub candidates-AllRemain : (s : State) → KeysDistinct s.remaining → AllRemain (candidates s) s
candidates-AllRemain s d k n h = sym (get-sort_by_index s.remaining k d) ∙ h

pub get-candidates :
    (s : State) (k : String) → KeysDistinct s.remaining → get (candidates s) k ≡ get s.remaining k
get-candidates s k d = get-sort_by_index s.remaining k d

abbrev pub reset : State → State
reset s = record s { progress = false }

length-zero : (s : State) → nat_beq (length s.remaining) 0 ≡ true → s.remaining ≡ []
length-zero s h = ground arith

fewer :
    (s' s : State) (fuel : ℕ)
    → (length s'.remaining ≤ length s.remaining)
      × ((s'.progress ≡ false) ⊎ (length s'.remaining < length s.remaining))
    → s'.progress ≡ true
    → length s.remaining < suc fuel
    → length s'.remaining < fuel
fewer s' s fuel less moved h = ground arith

-- With a round for each remaining entry and one more, the loop ends and has lost no entry.
rounds_total :
    (entries : List Entry) (fuel : ℕ) (s : State)
    → length s.remaining < fuel
    → IsSplit entries s
    → (out : List Entry) × (rounds fuel s ≡ some out) × Perm out entries
unfolding rounds
rounds_total entries zero s h i = absurd (omega arith)
rounds_total entries (suc fuel) s h i = elim (Bool-cases (nat_beq (length s.remaining) 0)) [
  | inl done ↦ (s.result, rw done, rw (← append-nil s.result) (rw (length-zero s done) at i.whole))
  | inr more ↦
      let s' = sweep (reset s) (candidates s) in
      let i' =
        sweep-IsSplit entries (reset s) (candidates s) (candidates-KeysDistinct s i.distinct)
          (candidates-AllRemain s i.distinct) (record { distinct = i.distinct; whole = i.whole }) in
      let less =
        sweep_shrinks (reset s) (candidates s) (candidates-KeysDistinct s i.distinct)
          (candidates-AllRemain s i.distinct) in
      elim (Bool-cases s'.progress) [
        | inl moved ↦
            rw (more, moved) (rounds_total entries fuel s' (fewer s' s fuel less moved h) i')
        | inr stuck ↦ (s'.result ++ s'.remaining, rw (more, stuck), i'.whole)
      ]
]

get-append :
    (m es : List Entry) (k : String) → get (m ++ es) k ≡ (if has m k then get m k else get es k)
unfolding get
get-append [] es k = refl
get-append (f ∷ m) es k = ground (arith, get-append m es k)

get_before : (m es : List Entry) (e : Entry) → KeysDistinct (m ++ e ∷ es) → get m e.0 ≡ none
unfolding get
get_before [] es e d = refl
get_before (f ∷ m) es e d =
    ground (arith, get_before m es e d.1, get-append m (e ∷ es) f.0, eq_iff f.0 e.0, eq_iff e.0 f.0)

put-absent : (m : List Entry) (e : Entry) → get m e.0 ≡ none → put m e.0 e.1 ≡ m ++ e ∷ []
unfolding put get
put-absent [] e h = refl
put-absent (f ∷ m) e h = ground (arith, put-absent m e)

pub put_all-append : (m es : List Entry) → KeysDistinct (m ++ es) → put_all m es ≡ m ++ es
unfolding put_all
put_all-append m [] d = sym (append-nil m)
put_all-append m (e ∷ es) d = rw (put-absent m e (get_before m es e d)) (
    put_all-append (m ++ e ∷ []) es (rw (append_assoc m (e ∷ []) es) d)
    ∙ append_assoc m (e ∷ []) es)

pub start-IsSplit :
    (entries : List Entry) (initial : List String)
    → KeysDistinct entries
    → IsSplit entries (start entries initial)
start-IsSplit entries initial d =
    rw (put_all-append [] entries d) (record { distinct = d; whole = Perm.refl entries })

-- On entries with distinct ids `topoSort` ends within a round for each entry and one more, and
-- returns a permutation of them: no entry is lost, also where no order exists.
pub topo_sort_total :
    (entries : List Entry) (initial : List String)
    → KeysDistinct entries
    → (out : List Entry) × (topo_sort entries initial ≡ some out) × Perm out entries
unfolding topo_sort
topo_sort_total entries initial d =
    rounds_total entries (suc (length entries)) (start entries initial)
      (rw (put_all-append [] entries d) (omega arith)) (start-IsSplit entries initial d)
