-- ===== src/Sync/Queue/Front.antt =====
-- The front of the queue, and what is left of the queue without it.
use vaultmarks.Shared.{
  ℕ, zero, suc, String, true, false, List, [], ◌∷◌, ◌++◌, ◌==◌, map, length, contains, All, ◌≡◌,
  refl, ap, arith, eq_iff,
}
use vaultmarks.Sync.Queue.{QueuedDelta, peek, dequeue}

abbrev pub take : ℕ → List QueuedDelta → List QueuedDelta
take zero q = []
take (suc n) [] = []
take (suc n) (d ∷ q) = d ∷ take n q

abbrev pub drop : ℕ → List QueuedDelta → List QueuedDelta
drop zero q = q
drop (suc n) [] = []
drop (suc n) (d ∷ q) = drop n q

-- The database keeps one delta for each id.
abbrev pub HaveDistinctIds : List QueuedDelta → Type 0
HaveDistinctIds [] = Unit
HaveDistinctIds (d ∷ q) = All (λ e. (d.id == e.id) ≡ false) q × HaveDistinctIds q

abbrev pub ids : List QueuedDelta → List String
ids q = map (λ d. d.id) q

pub peek-take : (n : ℕ) (q : List QueuedDelta) → peek n q ≡ take n q
unfolding peek
peek-take zero q = refl
peek-take (suc n) [] = refl
peek-take (suc n) (d ∷ q) = ap (◌∷◌ d) (peek-take n q)

dequeue-none :
    (gone : List String) (q : List QueuedDelta)
    → All (λ e. contains gone e.id ≡ false) q
    → dequeue gone q ≡ q
unfolding dequeue
dequeue-none gone [] a = refl
dequeue-none gone (d ∷ q) a = rw (a.0, dequeue-none gone q a.1, dequeue) refl

dequeue-front :
    (gone : List String) (n : ℕ) (q : List QueuedDelta)
    → All (λ d. contains gone d.id ≡ true) (take n q)
    → All (λ e. contains gone e.id ≡ false) (drop n q)
    → dequeue gone q ≡ drop n q
unfolding dequeue
dequeue-front gone zero q a b = dequeue-none gone q b
dequeue-front gone (suc n) [] a b = refl
dequeue-front gone (suc n) (d ∷ q) a b = rw (a.0, dequeue-front gone n q a.1 b, dequeue) refl

All-contains :
    (gone : List String) (xs : List QueuedDelta)
    → ((x : String) → contains (ids xs) x ≡ true → contains gone x ≡ true)
    → All (λ d. contains gone d.id ≡ true) xs
unfolding contains
All-contains gone [] h = tt
All-contains gone (d ∷ xs) h = (
  h d.id (ground (arith, eq_iff d.id d.id)),
  All-contains gone xs (λ x k. h x (ground (arith, k))),
)

All-drop :
    (id : String) (n : ℕ) (q : List QueuedDelta)
    → All (λ e. (id == e.id) ≡ false) q
    → All (λ e. (id == e.id) ≡ false) (drop n q)
All-drop id zero q a = a
All-drop id (suc n) [] a = tt
All-drop id (suc n) (d ∷ q) a = All-drop id n q a.1

All-unseen :
    (id : String) (gone : List String) (q : List QueuedDelta)
    → All (λ e. (id == e.id) ≡ false) q
    → All (λ e. contains gone e.id ≡ false) q
    → All (λ e. contains (id ∷ gone) e.id ≡ false) q
unfolding contains
All-unseen id gone [] a b = tt
All-unseen id gone (e ∷ q) a b = (ground (arith, a.0, b.0), All-unseen id gone q a.1 b.1)

drop-unseen :
    (n : ℕ) (q : List QueuedDelta)
    → HaveDistinctIds q
    → All (λ e. contains (ids (take n q)) e.id ≡ false) (drop n q)
drop-unseen zero q d = All-nothing q
  where
    All-nothing : (q : List QueuedDelta) → All (λ e. contains [] e.id ≡ false) q
    All-nothing [] = tt
    All-nothing (e ∷ q) = (unfold contains in refl, All-nothing q)
drop-unseen (suc n) [] d = tt
drop-unseen (suc n) (e ∷ q) d =
    All-unseen e.id (ids (take n q)) (drop n q) (All-drop e.id n q d.0) (drop-unseen n q d.1)

-- To take the front's ids off the queue is to drop the front.
pub dequeue-take :
    (n : ℕ) (q : List QueuedDelta) → HaveDistinctIds q → dequeue (ids (take n q)) q ≡ drop n q
dequeue-take n q d =
    dequeue-front (ids (take n q)) n q (All-contains (ids (take n q)) (take n q) (λ x k. k))
      (drop-unseen n q d)

-- A part of the front is the front of its own length.
pub take-front :
    (n : ℕ) (q xs rest : List QueuedDelta) → take n q ≡ xs ++ rest → xs ≡ take (length xs) q
take-front n q [] rest e = refl
take-front zero q (x ∷ xs) rest e = absurd (ground (arith, e))
take-front (suc n) [] (x ∷ xs) rest e = absurd (ground (arith, e))
take-front (suc n) (d ∷ q) (x ∷ xs) rest e = ground (arith, e, take-front n q xs rest)
