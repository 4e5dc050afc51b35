-- ===== src/Background/Ending.antt =====
-- Rules for how an action ends: what holds of its result and of the state after it.
use vaultmarks.Shared.{Bool, true, false, if◌then◌else◌, Option, none, some, ◌≡◌, refl}
use vaultmarks.Sync.Action.{
  Failure, Result, done, failed, Action, pure, throw, or_throw, catching, modify, ◌>>=◌,
}
use vaultmarks.Background.World.{Env, World, Database}
use vaultmarks.Background.Steps.{write_failed, set_database}

pub record Ends {W A : Type 0} (m : Action W A) (Q : Result A → W → Type 0) (w : W) : Type 0 where
  pub ends : Q (m w).0 (m w).1

module _ {W : Type 0} {A B : Type 0} (Q : Result B → W → Type 0) where
  -- What the first action is to leave: the second ends well, or the failure does.
  abbrev pub After : (A → Action W B) → Result A → W → Type 0
  After f (done a) w = Ends (f a) Q w
  After f (failed e) w = Q (failed e) w

  pub bind-Ends :
      (m : Action W A) (f : A → Action W B) (w : W) → Ends m (After f) w → Ends (m >>= f) Q w
  unfolding ◌>>=◌ throw
  bind-Ends m f w h = record { ends = go (m w) h.ends }
    where
      ran : Result A × W → Result B × W
      ran r = elim r.0 [ done a ↦ f a r.1 | failed e ↦ throw e r.1 ]

      go : (r : Result A × W) → After f r.0 r.1 → Q (ran r).0 (ran r).1
      go (done a, w') h = h.ends
      go (failed e, w') h = h

module _ {W : Type 0} {A : Type 0} (Q : Result A → W → Type 0) where
  abbrev Caught : (Failure → Action W A) → Result A → W → Type 0
  Caught h (done a) w = Q (done a) w
  Caught h (failed e) w = Ends (h e) Q w

  pub catching-Ends :
      (h : Failure → Action W A) (m : Action W A) (w : W)
      → Ends m (Caught h) w
      → Ends (catching h m) Q w
  unfolding catching
  catching-Ends h m w p = record { ends = go (m w) p.ends }
    where
      ran : Result A × W → Result A × W
      ran r = elim r.0 [ done a ↦ (done a, r.1) | failed e ↦ h e r.1 ]

      go : (r : Result A × W) → Caught h r.0 r.1 → Q (ran r).0 (ran r).1
      go (done a, w') p = p
      go (failed e, w') p = p.ends

  pub pure-Ends : (a : A) (w : W) → Q (done a) w → Ends (pure a) Q w
  unfolding pure
  pure-Ends a w h = record { ends = h }

  pub or_throw-Ends :
      (o : Option A) (e : Failure) (w : W)
      → ((a : A) → o ≡ some a → Q (done a) w)
      → Q (failed e) w
      → Ends (or_throw o e) Q w
  unfolding or_throw pure throw
  or_throw-Ends none e w h n = record { ends = n }
  or_throw-Ends (some a) e w h n = record { ends = h a refl }

  pub if-Ends :
      (c : Bool) (m n : Action W A) (w : W)
      → (c ≡ true → Ends m Q w)
      → (c ≡ false → Ends n Q w)
      → Ends (if c then m else n) Q w
  if-Ends true m n w h k = h refl
  if-Ends false m n w h k = k refl

module _ {W : Type 0} {A B : Type 0} (Q : Result B → W → Type 0) where
  -- An action of which nothing is known but the state that it leaves.
  pub any-Ends :
      (m : Action W A) (f : A → Action W B) (w : W)
      → ((a : A) → Ends (f a) Q (m w).1)
      → ((e : Failure) → Q (failed e) (m w).1)
      → Ends (m >>= f) Q w
  any-Ends m f w h k = bind-Ends Q m f w (record { ends = go (m w).0 })
    where
      go : (r : Result A) → After Q f r (m w).1
      go (done a) = h a
      go (failed e) = k e

  -- A value that may be missing from the state.
  pub read-Ends :
      (o : W → Option A) (e : Failure) (f : A → Action W B) (w : W)
      → ((a : A) → o w ≡ some a → Ends (f a) Q w)
      → Q (failed e) w
      → Ends ((λ w. or_throw (o w) e w) >>= f) Q w
  read-Ends o e f w h k =
      bind-Ends Q _ f w (record { ends = (or_throw-Ends (After Q f) (o w) e w h k).ends })

module _ {E : Env} (Q : Result Unit → World E → Type 0) where
  -- A write of the database, or its failure; what is outside may have changed.
  pub write-Ends :
      (f : Database → Database) (w : World E)
      → Q (done tt) (record w { remote = (E.commits w.remote).1; database = f w.database })
      → Q (failed write_failed) (record w { remote = (E.commits w.remote).1 })
      → Ends (set_database f) Q w
  unfolding modify throw
  write-Ends f w h k = bind-Ends Q _ _ w (record {
    ends =
        if-Ends Q (E.commits w.remote).0 _ _ _ (λ ok. record { ends = h })
          (λ refused. record { ends = k });
  })
