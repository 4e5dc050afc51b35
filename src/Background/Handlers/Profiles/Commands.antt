-- ===== src/Background/Handlers/Profiles/Commands.antt =====
-- The profiles that the keyboard commands switch to: onCommand of extension/src/background/index.ts.
use Prim.Native.Nat.{◌%◌}
use native.Mathlib.Nat.{mod-eq_of_lt, add-mod_right}
use vaultmarks.Shared.{
  ℕ, String, zero, suc, ◌+◌, ◌-◌, ◌≤◌, ◌<◌, false, some, List, [], ◌∷◌, ◌==◌, length, All, ◌≡◌,
  refl, sym, arith, ◌∙◌, ap, ◌⊎◌, inl, inr, ltb, if◌then◌else◌, eq_refl, Bool-cases,
}
use vaultmarks.Shared.Integers.{ℤ, pos, negsuc, ◌+ℤ◌, rem_ℤ}
use vaultmarks.Auth.Store.{ProfileInfo}
use vaultmarks.Background.Handlers.Profiles.{
  Command, next_profile, prev_profile, neighbour, nth, index_of, target_of, delta,
}

wrap : (a n : ℕ) → a < n → (a + n) % n ≡ a
wrap a n h = add-mod_right a n ∙ mod-eq_of_lt h

at_end : (n : ℕ) → 0 < n → n % n ≡ 0
at_end n h = ap (λ x. x % n) (omega arith) ∙ wrap 0 n h

-- The index after `i` in a round of `n`, and the one before it.
abbrev after : ℕ → ℕ → ℕ
after i n = if ltb (suc i) n then suc i else 0

abbrev before : ℕ → ℕ → ℕ
before zero n = n - 1
before (suc i) n = i

-- A sum that is not negative has the remainder of the natural numbers.
of_sum :
    (c : Command) (i : ℤ) (n s : ℕ) → i +ℤ delta c +ℤ pos n ≡ pos s → neighbour c i n ≡ pos (s % n)
unfolding neighbour rem_ℤ
of_sum c i n s h = ap (λ x. rem_ℤ x n) h

next-pos : (i n : ℕ) → i < n → neighbour next_profile (pos i) n ≡ pos (after i n)
next-pos i n h =
    of_sum next_profile (pos i) n (suc i + n) (unfold ◌+ℤ◌ in ground arith)
    ∙ ap pos (elim (Bool-cases (ltb (suc i) n)) [
      | inl k ↦ wrap (suc i) n (ground (arith, k)) ∙ rw k refl
      | inr k ↦
          let e : suc i ≡ n = ground (arith, k, h) in
          add-mod_right (suc i) n ∙ ap (λ x. x % n) e ∙ at_end n (omega arith) ∙ rw k refl
    ])

prev-pos : (i n : ℕ) → i < n → neighbour prev_profile (pos i) n ≡ pos (before i n)
prev-pos zero n h =
    of_sum prev_profile (pos 0) n (n - 1) (unfold ◌+ℤ◌ in ground (arith, h))
    ∙ ap pos (mod-eq_of_lt (omega arith))
prev-pos (suc i) n h =
    of_sum prev_profile (pos (suc i)) n (i + n) (unfold ◌+ℤ◌ in ground (arith, h))
    ∙ ap pos (wrap i n (omega arith))

next-unknown : (n : ℕ) → 2 ≤ n → neighbour next_profile (negsuc 0) n ≡ pos 0
next-unknown n h =
    of_sum next_profile (negsuc 0) n n (unfold ◌+ℤ◌ in ground (arith, h))
    ∙ ap pos (at_end n (omega arith))

prev-unknown : (n : ℕ) → 2 ≤ n → neighbour prev_profile (negsuc 0) n ≡ pos (n - 2)
prev-unknown n h =
    of_sum prev_profile (negsuc 0) n (n - 2) (unfold ◌+ℤ◌ in ground (arith, h))
    ∙ ap pos (mod-eq_of_lt (omega arith))

nth-some : (ps : List ProfileInfo) (i : ℕ) → i < length ps → (p : ProfileInfo) × (nth ps i ≡ some p)
nth-some [] i h = absurd (omega arith)
nth-some (p ∷ ps) zero h = (p, refl)
nth-some (p ∷ ps) (suc i) h = nth-some ps i (omega arith)

nth-lt : (ps : List ProfileInfo) (i : ℕ) {p : ProfileInfo} → nth ps i ≡ some p → i < length ps
nth-lt [] i h = absurd (ground (arith, h))
nth-lt (p ∷ ps) zero h = omega arith
nth-lt (p ∷ ps) (suc i) h = let l = nth-lt ps i h in omega arith

-- A profile is found at an index of the list, or nowhere.
index_of-cases :
    (id : String) (ps : List ProfileInfo)
    → ((i : ℕ) × (index_of id ps ≡ pos i) × (i < length ps)) ⊎ (index_of id ps ≡ negsuc 0)
unfolding index_of
index_of-cases id [] = inr refl
index_of-cases id (p ∷ ps) = elim (Bool-cases (p.id == id)) [
  | inl e ↦ inl (0, rw (e, index_of) refl, omega arith)
  | inr e ↦ elim (index_of-cases id ps) [
    | inl (i, f, l) ↦ inl (suc i, rw (e, f, index_of) refl, omega arith)
    | inr f ↦ inr (rw (e, f, index_of) refl)
  ]
]

abbrev pub HaveDistinctIds : List ProfileInfo → Type 0
HaveDistinctIds [] = Unit
HaveDistinctIds (p ∷ ps) = All (λ q. (p.id == q.id) ≡ false) ps × HaveDistinctIds ps

All-nth :
    (id : String) (ps : List ProfileInfo) (i : ℕ) {q : ProfileInfo}
    → All (λ q. (id == q.id) ≡ false) ps
    → nth ps i ≡ some q
    → (id == q.id) ≡ false
All-nth id [] i a h = absurd (ground (arith, h))
All-nth id (p ∷ ps) zero a h = ground (arith, h, a.0)
All-nth id (p ∷ ps) (suc i) a h = All-nth id ps i a.1 h

index_of-nth :
    (ps : List ProfileInfo) (i : ℕ) {q : ProfileInfo}
    → HaveDistinctIds ps
    → nth ps i ≡ some q
    → index_of q.id ps ≡ pos i
unfolding index_of
index_of-nth [] i d h = absurd (ground (arith, h))
index_of-nth (p ∷ ps) zero {q} d h =
    let e : p ≡ q = ground (arith, h) in rw (sym e, eq_refl p.id, index_of) refl
index_of-nth (p ∷ ps) (suc i) d h =
    rw (All-nth p.id ps i d.0 h, index_of-nth ps i d.1 h, index_of) refl

target :
    (c : Command) (id : String) (ps : List ProfileInfo) (i : ℤ) (k : ℕ) {q : ProfileInfo}
    → index_of id ps ≡ i
    → neighbour c i (length ps) ≡ pos k
    → nth ps k ≡ some q
    → target_of c id ps ≡ some q
unfolding target_of
target c id ps i k e f h = rw (e, f, target_of) h

-- With two profiles or more, whichever is active, in the list or not: a command finds a profile to
-- switch to.
pub target_found :
    (c : Command) (active : String) (ps : List ProfileInfo)
    → 2 ≤ length ps
    → (p : ProfileInfo) × (target_of c active ps ≡ some p)
target_found c active ps h = elim (index_of-cases active ps) [
  | inl (i, e, l) ↦ go_known c i e l
  | inr e ↦ go_unknown c e
]
  where
    reached :
        (c : Command) (i : ℤ) (k : ℕ)
        → index_of active ps ≡ i
        → neighbour c i (length ps) ≡ pos k
        → k < length ps
        → (p : ProfileInfo) × (target_of c active ps ≡ some p)
    reached c i k e f l = let (p, g) = nth-some ps k l in (p, target c active ps i k e f g)

    go_known :
        (c : Command) (i : ℕ)
        → index_of active ps ≡ pos i
        → i < length ps
        → (p : ProfileInfo) × (target_of c active ps ≡ some p)
    go_known next_profile i e l =
        reached next_profile (pos i) _ e (next-pos i (length ps) l) (ground (arith, h, l))
    go_known prev_profile zero e l =
        reached prev_profile (pos 0) _ e (prev-pos 0 (length ps) l) (omega arith)
    go_known prev_profile (suc i) e l =
        reached prev_profile (pos (suc i)) _ e (prev-pos (suc i) (length ps) l) (omega arith)

    go_unknown :
        (c : Command)
        → index_of active ps ≡ negsuc 0
        → (p : ProfileInfo) × (target_of c active ps ≡ some p)
    go_unknown next_profile e =
        reached next_profile (negsuc 0) _ e (next-unknown (length ps) h) (omega arith)
    go_unknown prev_profile e =
        reached prev_profile (negsuc 0) _ e (prev-unknown (length ps) h) (omega arith)

after-before : (i n : ℕ) → i < n → 2 ≤ n → (before i n < n) × (after (before i n) n ≡ i)
after-before zero n h k = ground (arith, k)
after-before (suc i) n h k = ground (arith, h)

before-after : (i n : ℕ) → i < n → 2 ≤ n → (after i n < n) × (before (after i n) n ≡ i)
before-after i n h k = elim (Bool-cases (ltb (suc i) n)) [
  | inl e ↦ rw e (ground (arith, e), refl)
  | inr e ↦ rw e (omega arith, ground (arith, e, h))
]

-- From any of two profiles or more, whose ids are distinct: the command for the next one finds a
-- profile from which the command for the previous one finds the first again, and the other way
-- around.
pub targets_inverse :
    (ps : List ProfileInfo) (i : ℕ) (a : ProfileInfo)
    → HaveDistinctIds ps
    → 2 ≤ length ps
    → nth ps i ≡ some a
    → ((p : ProfileInfo) × (target_of next_profile a.id ps ≡ some p)
        × (target_of prev_profile p.id ps ≡ some a))
      × ((p : ProfileInfo) × (target_of prev_profile a.id ps ≡ some p)
          × (target_of next_profile p.id ps ≡ some a))
targets_inverse ps i a d h e =
    let n = length ps in
    let l = nth-lt ps i e in
    let (small, back) = before-after i n l h in
    let (small', back') = after-before i n l h in
    let (p, f) = nth-some ps (after i n) small in
    let (q, g) = nth-some ps (before i n) small' in
    let at = index_of-nth ps i d e in
    (
      (
        p,
        target next_profile a.id ps (pos i) _ at (next-pos i n l) f,
        target prev_profile p.id ps _ i (index_of-nth ps _ d f)
            (prev-pos (after i n) n small ∙ ap pos back) e,
      ),
      (
        q,
        target prev_profile a.id ps (pos i) _ at (prev-pos i n l) g,
        target next_profile q.id ps _ i (index_of-nth ps _ d g)
            (next-pos (before i n) n small' ∙ ap pos back') e,
      ),
    )
