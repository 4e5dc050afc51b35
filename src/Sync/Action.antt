-- ===== src/Sync/Action.antt =====
-- An asynchronous function of the extension: what it changes stays changed when it throws.
use vaultmarks.Shared.{ℕ, String, Bool, true, false, Option, none, some}
use vaultmarks.Sync.Http.{ApiError}

-- What is thrown: an error class of the client's, the `OperationError` of Web Crypto, an `Error`
-- with its text, or one whose text is made of a prefix and a status.
pub data Failure : Type 0 where
  api : ApiError → Failure
  wrong_key : Failure
  message : String → Failure
  unexpected : String → ℕ → Failure

pub data Result (A : Type 0) : Type 0 where
  done : A → Result A
  failed : Failure → Result A

abbrev pub Action : Type 0 → Type 0 → Type 0
Action W A = W → Result A × W

module _ {W A : Type 0} where
  unfoldable pub pure : A → Action W A
  pure a w = (done a, w)

  unfoldable pub throw : Failure → Action W A
  throw e w = (failed e, w)

  unfoldable pub gets : (W → A) → Action W A
  gets f w = (done (f w), w)

  unfoldable pub or_throw : Option A → Failure → Action W A
  or_throw none e = throw e
  or_throw (some a) e = pure a

  -- `try { … } catch`
  unfoldable pub catching : (Failure → Action W A) → Action W A → Action W A
  catching handler m w =
      let (r, w') = m w in elim r [ done a ↦ (done a, w') | failed e ↦ handler e w' ]

  -- `try { … } finally`, for a block that does not throw.
  unfoldable pub finally : (W → W) → Action W A → Action W A
  finally last m w = let (r, w') = m w in (r, last w')

  -- A block with a `finally` that goes on with the state: how it ended, to be passed on after it.
  unfoldable pub attempt : Action W A → Action W (Result A)
  attempt m w = let (r, w') = m w in (done r, w')

  unfoldable pub pass_on : Result A → Action W A
  pass_on (done a) = pure a
  pass_on (failed e) = throw e

infixl 5 ◌>>=◌ ◌>>◌
unfoldable pub ◌>>=◌ : {W A B : Type 0} → Action W A → (A → Action W B) → Action W B
◌>>=◌ m f w = let (r, w') = m w in elim r [ done a ↦ f a w' | failed e ↦ throw e w' ]

abbrev pub ◌>>◌ : {W A B : Type 0} → Action W A → Action W B → Action W B
m >> k = m >>= λ _. k

unfoldable pub modify : {W : Type 0} → (W → W) → Action W Unit
modify f w = (done tt, f w)

unfoldable pub when : {W : Type 0} → Bool → Action W Unit → Action W Unit
when c m w = elim c [ false ↦ (done tt, w) | true ↦ m w ]
