-- ===== src/Background/Keeping.antt =====
-- What every step of a handler keeps, the handler keeps.
use vaultmarks.Shared.{Bool, true, false, Option, none, some, ◌≡◌, refl, arith, if◌then◌else◌}
use vaultmarks.Sync.Action.{
  Failure, Result, done, failed, Action, pure, throw, gets, or_throw, modify, when, catching,
  attempt, pass_on, ◌>>=◌,
}

-- An action keeps `I`, however it ends.
pub record Keeps {W A : Type 0} (I : W → Type 0) (m : Action W A) : Type 0 where
  pub keeps : (w : W) → I w → I (m w).1

module _ {W : Type 0} {I : W → Type 0} {A : Type 0} where
  pub bind-Keeps :
      {B : Type 0} {m : Action W A} {f : A → Action W B}
      → Keeps I m
      → ((a : A) → Keeps I (f a))
      → Keeps I (m >>= f)
  unfolding ◌>>=◌ throw
  bind-Keeps {B = B} {m = m} {f = f} k h = record { keeps = λ w i. go w (m w) (k.keeps w i) }
    where
      go :
          (w : W) (r : Result A × W)
          → I r.1
          → I (elim r.0 as (λ x. Result B × W) [ done a ↦ f a r.1 | failed e ↦ throw e r.1 ]).1
      go w (done a, w') i = (h a).keeps w' i
      go w (failed e, w') i = i

  pub pure-Keeps : (a : A) → Keeps I (pure a)
  unfolding pure
  pure-Keeps a = record { keeps = λ w i. i }

  pub throw-Keeps : (e : Failure) → Keeps I (throw {A = A} e)
  unfolding throw
  throw-Keeps e = record { keeps = λ w i. i }

  pub gets-Keeps : (f : W → A) → Keeps I (gets f)
  unfolding gets
  gets-Keeps f = record { keeps = λ w i. i }

  pub or_throw-Keeps : (o : Option A) (e : Failure) → Keeps I (or_throw o e)
  unfolding or_throw throw pure
  or_throw-Keeps none e = record { keeps = λ w i. i }
  or_throw-Keeps (some a) e = record { keeps = λ w i. i }

  pub pass_on-Keeps : (r : Result A) → Keeps I (pass_on r)
  unfolding pass_on pure throw
  pass_on-Keeps (done a) = record { keeps = λ w i. i }
  pass_on-Keeps (failed e) = record { keeps = λ w i. i }

  pub catching-Keeps :
      {m : Action W A} {f : Failure → Action W A}
      → ((e : Failure) → Keeps I (f e))
      → Keeps I m
      → Keeps I (catching f m)
  unfolding catching
  catching-Keeps {m = m} {f = f} h k = record { keeps = λ w i. go w (m w) (k.keeps w i) }
    where
      go :
          (w : W) (r : Result A × W)
          → I r.1
          → I (elim r.0 as (λ x. Result A × W) [ done a ↦ (done a, r.1) | failed e ↦ f e r.1 ]).1
      go w (done a, w') i = i
      go w (failed e, w') i = (h e).keeps w' i

  pub if-Keeps :
      (c : Bool) {m n : Action W A} → Keeps I m → Keeps I n → Keeps I (if c then m else n)
  if-Keeps true k h = k
  if-Keeps false k h = h

  pub option-Keeps :
      {B : Type 0} (o : Option B) {m : Action W A} {f : B → Action W A}
      → Keeps I m
      → ((b : B) → Keeps I (f b))
      → Keeps I (elim o [ none ↦ m | some b ↦ f b ])
  option-Keeps none k h = k
  option-Keeps (some b) k h = h b

module _ {W : Type 0} {I : W → Type 0} where
  pub modify-Keeps : (f : W → W) → ((w : W) → I w → I (f w)) → Keeps I (modify f)
  unfolding modify
  modify-Keeps f h = record { keeps = h }

  pub when-Keeps : (c : Bool) {m : Action W Unit} → Keeps I m → Keeps I (when c m)
  unfolding when
  when-Keeps true k = record { keeps = k.keeps }
  when-Keeps false k = record { keeps = λ w i. i }

-- From `I`, an action that returns leads to `J`, and one that throws keeps `I`.
abbrev pub Post : {W A : Type 0} → (W → Type 0) → (W → Type 0) → Result A × W → Type 0
Post I J (done a, w) = J w
Post I J (failed e, w) = I w

pub record Leads {W A : Type 0} (I J : W → Type 0) (m : Action W A) : Type 0 where
  pub leads : (w : W) → I w → Post I J (m w)

module _ {W : Type 0} {I J : W → Type 0} {A : Type 0} where
  -- The first step leads to `J`, which the rest keeps and which implies `I`.
  pub bind-Leads :
      {B : Type 0} {m : Action W A} {f : A → Action W B}
      → ((w : W) → J w → I w)
      → Leads I J m
      → ((a : A) → Keeps J (f a))
      → Keeps I (m >>= f)
  unfolding ◌>>=◌ throw
  bind-Leads {B = B} {m = m} {f = f} weaken k h = record { keeps = λ w i. go w (m w) (k.leads w i) }
    where
      go :
          (w : W) (r : Result A × W)
          → Post I J r
          → I (elim r.0 as (λ x. Result B × W) [ done a ↦ f a r.1 | failed e ↦ throw e r.1 ]).1
      go w (done a, w') j = weaken _ ((h a).keeps w' j)
      go w (failed e, w') i = i

  pub then-Leads :
      {B : Type 0} {m : Action W A} {f : A → Action W B}
      → Keeps I m
      → ((a : A) → Leads I J (f a))
      → Leads I J (m >>= f)
  unfolding ◌>>=◌ throw
  then-Leads {B = B} {m = m} {f = f} k h = record { leads = λ w i. go w (m w) (k.keeps w i) }
    where
      go :
          (w : W) (r : Result A × W)
          → I r.1
          → Post I J (elim r.0 as (λ x. Result B × W) [ done a ↦ f a r.1 | failed e ↦ throw e r.1 ])
      go w (done a, w') i = (h a).leads w' i
      go w (failed e, w') i = i

  pub keep-Leads :
      {B : Type 0} {m : Action W A} {f : A → Action W B}
      → ((w : W) → J w → I w)
      → Leads I J m
      → ((a : A) → Keeps J (f a))
      → Leads I J (m >>= f)
  unfolding ◌>>=◌ throw
  keep-Leads {B = B} {m = m} {f = f} weaken k h = record { leads = λ w i. go w (m w) (k.leads w i) }
    where
      after : (r : Result B × W) → J r.1 → Post I J r
      after (done b, w) j = j
      after (failed e, w) j = weaken w j

      go :
          (w : W) (r : Result A × W)
          → Post I J r
          → Post I J (elim r.0 as (λ x. Result B × W) [ done a ↦ f a r.1 | failed e ↦ throw e r.1 ])
      go w (done a, w') j = after (f a w') ((h a).keeps w' j)
      go w (failed e, w') i = i

  pub Leads-Keeps : {m : Action W A} → ((w : W) → J w → I w) → Leads I J m → Keeps I m
  Leads-Keeps {m = m} weaken k = record { keeps = λ w i. go (m w) (k.leads w i) }
    where
      go : (r : Result A × W) → Post I J r → I r.1
      go (done a, w) j = weaken w j
      go (failed e, w) i = i

-- From `I` an action leads to `J`, however it ends.
pub record Moves {W A : Type 0} (I J : W → Type 0) (m : Action W A) : Type 0 where
  pub moves : (w : W) → I w → J (m w).1

-- A handler of failures that does not throw.
pub record Returns {W A : Type 0} (m : Action W A) : Type 0 where
  pub returns : (w : W) → (a : A) × ((m w).0 ≡ done a)

module _ {W : Type 0} {J K : W → Type 0} {B : Type 0} where
  pub modify-Moves :
      {I : W → Type 0} (f : W → W) (k : Unit {0} → Action W B)
      → ((w : W) → I w → J (f w))
      → Moves J K (k tt)
      → Moves I K (modify f >>= k)
  unfolding ◌>>=◌ modify
  modify-Moves f k h n = record { moves = λ w i. n.moves (f w) (h w i) }

  pub attempt-Moves :
      {A : Type 0} {m : Action W A} {k : Result A → Action W B}
      → Keeps J m
      → ((r : Result A) → Moves J K (k r))
      → Moves J K (attempt m >>= k)
  unfolding ◌>>=◌ attempt
  attempt-Moves {m = m} keeps next = record {
    moves = λ w j. (next (m w).0).moves (m w).1 (keeps.keeps w j);
  }

  pub catching-Moves :
      {A : Type 0} {h : Failure → Action W A} {m : Action W A} {k : A → Action W B}
      → ((e : Failure) → Returns (h e))
      → ((e : Failure) → Keeps J (h e))
      → Keeps J m
      → ((a : A) → Moves J K (k a))
      → Moves J K (catching h m >>= k)
  unfolding ◌>>=◌ catching throw
  catching-Moves {A = A} {h = h} {m = m} {k = k} returns kept keeps next = record {
    moves = λ w j. go w (m w) (keeps.keeps w j);
  }
    where
      rest : Result A × W → Result B × W
      rest r = elim r.0 as (λ x. Result B × W) [ done a ↦ k a r.1 | failed e ↦ throw e r.1 ]

      returned : (r : Result A × W) (a : A) → r.0 ≡ done a → J r.1 → K (rest r).1
      returned (done b, w) a e j = (next b).moves w j
      returned (failed f, w) a e j = absurd (ground (arith, e))

      go :
          (w : W) (r : Result A × W)
          → J r.1
          → K
              (rest
                (elim r.0 as (λ x. Result A × W) [ done a ↦ (done a, r.1) | failed e ↦ h e r.1 ])).1
      go w (done a, w') j = (next a).moves w' j
      go w (failed e, w') j =
          returned (h e w') ((returns e).returns w').0 ((returns e).returns w').1
            ((kept e).keeps w' j)

module _ {W A : Type 0} where
  pub Keeps-Moves : {I : W → Type 0} {m : Action W A} → Keeps I m → Moves I I m
  Keeps-Moves k = record { moves = k.keeps }

  pub Moves-Keeps : {I : W → Type 0} {m : Action W A} → Moves I I m → Keeps I m
  Moves-Keeps k = record { keeps = k.moves }

  pub pure-Returns : (a : A) → Returns (pure {W = W} a)
  unfolding pure
  pure-Returns a = record { returns = λ w. (a, refl) }
