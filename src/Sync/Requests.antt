-- ===== src/Sync/Requests.antt =====
-- The requests of extension/src/sync/client.ts. `fetch` is the browser's, and the server's state is
-- of any type.
use vaultmarks.Shared.{ℕ, String, Bool, Option, none, some, List, ◌==◌, if◌then◌else◌, nat_beq}
use vaultmarks.Sync.Http.{ApiError, throw_if_not_ok}
use vaultmarks.Sync.Action.{Failure, Action, done, failed, pure, throw, ◌>>=◌}
use vaultmarks.Auth.Store.{ProfileInfo}

-- The method, the path and what the body or the headers carry.
pub data Request : Type 0 where
  login : String → String → Request
  register : String → String → String → String → String → Request
  get_profiles : String → Request
  create_profile : String → String → String → Request
  rename_profile : String → String → String → Request
  delete_profile : String → String → Request
  delete_account : String → String → Request
  change_password : String → String → String → String → Request
  get_snapshot : String → String → Request
  put_snapshot : String → String → ℕ → String → Request
  push : String → String → String → Request
  pull : String → String → ℕ → Request

-- The parsed body of an answer, in the shapes that the client reads.
pub data Body : Type 0 where
  no_body : Body
  error_body : String → Body
  login_body : String → List ProfileInfo → String → Body
  register_body : String → String → Body
  profiles_body : List ProfileInfo → Body
  profile_body : ProfileInfo → Body
  token_body : String → Body
  snapshot_body : ℕ → String → Body
  page_body : List (ℕ × String) → Bool → Body

pub record Answer : Type 0 where
  pub status : ℕ
  pub body : Body

pub record LoginResult : Type 0 where
  pub token : String
  pub profiles : List ProfileInfo
  pub protected_symmetric_key : String

pub record ServerSnapshot : Type 0 where
  pub snapshot_seq : ℕ
  pub encrypted_payload : String

-- `readErrorMessage`, as the error that is made of the message.
unfoldable pub read_error_message : Answer → String → Failure
read_error_message a prefix = elim a.body [
  | error_body text ↦
      if text == "" then Failure.unexpected prefix a.status else Failure.message text
  | _ ↦ Failure.unexpected prefix a.status
]

-- The error that `throwIfNotOk` throws for an answer, if any.
unfoldable pub failure_of : Answer → String → Option Failure
unfolding read_error_message
failure_of a prefix = elim (throw_if_not_ok a.status) [
  | none ↦ none
  | some ApiError.http_error ↦ some (read_error_message a prefix)
  | some e ↦ some (Failure.api e)
]

module _ {R : Type 0} (fetch : Request → R → Option Answer × R) where
  -- `fetchWithTimeout`: an answer, or the error of a request that failed or took too long.
  unfoldable pub fetch_with_timeout : Request → Action R Answer
  fetch_with_timeout q r =
      let (a, r') = fetch q r in
      elim a [ none ↦ (failed (Failure.api ApiError.request_failed), r') | some x ↦ (done x, r') ]

  abbrev throw_if : {A : Type 0} → Option Failure → Action R A → Action R A
  throw_if none m = m
  throw_if (some e) m = throw e

  -- The body's shape is read only when the status is good.
  unfoldable pub call : {A : Type 0} → Request → String → (Body → Option A) → Action R A
  unfolding failure_of fetch_with_timeout
  call q prefix read = do
    a ← fetch_with_timeout q
    throw_if (failure_of a prefix)
        (elim (read a.body) [ none ↦ throw (Failure.api ApiError.bad_payload) | some x ↦ pure x ])

  unfoldable pub api_register :
      String → String → String → String → String → Action R (String × String)
  unfolding call
  api_register email auth_key name metadata psk =
      call (register email auth_key name metadata psk) "register failed"
        (λ b. elim b [ register_body token id ↦ some (token, id) | _ ↦ none ])

  -- Here a 401 means wrong credentials.
  unfoldable pub api_login : String → String → Action R LoginResult
  unfolding failure_of fetch_with_timeout
  api_login email auth_key = do
    a ← fetch_with_timeout (login email auth_key)
    if nat_beq a.status 401
        then throw (Failure.api ApiError.invalid_credentials)
        else throw_if (failure_of a "login failed") (elim a.body [
          | login_body token ps psk ↦
              pure (record { token = token; profiles = ps; protected_symmetric_key = psk })
          | _ ↦ throw (Failure.api ApiError.bad_payload)
        ])

  unfoldable pub api_get_profiles : String → Action R (List ProfileInfo)
  unfolding call
  api_get_profiles jwt =
      call (get_profiles jwt) "get profiles failed"
        (λ b. elim b [ profiles_body ps ↦ some ps | _ ↦ none ])

  unfoldable pub api_create_profile : String → String → String → Action R ProfileInfo
  unfolding call
  api_create_profile name metadata jwt =
      call (create_profile jwt name metadata) "create profile failed"
        (λ b. elim b [ profile_body p ↦ some p | _ ↦ none ])

  unfoldable pub api_rename_profile : String → String → String → Action R Unit
  unfolding call
  api_rename_profile id name jwt =
      call (rename_profile jwt id name) "rename profile failed" (λ b. some tt)

  unfoldable pub api_delete_profile : String → String → Action R Unit
  unfolding call
  api_delete_profile id jwt = call (delete_profile jwt id) "delete profile failed" (λ b. some tt)

  unfoldable pub api_delete_account : String → String → Action R Unit
  unfolding call
  api_delete_account jwt auth_key =
      call (delete_account jwt auth_key) "delete account failed" (λ b. some tt)

  unfoldable pub api_change_password : String → String → String → String → Action R String
  unfolding call
  api_change_password old_key new_key psk jwt =
      call (change_password jwt old_key new_key psk) "change password failed"
        (λ b. elim b [ token_body t ↦ some t | _ ↦ none ])

  -- `none` is the server's 404: no snapshot has been uploaded yet.
  unfoldable pub api_get_server_snapshot : String → String → Action R (Option ServerSnapshot)
  unfolding failure_of fetch_with_timeout
  api_get_server_snapshot jwt profile = do
    a ← fetch_with_timeout (get_snapshot jwt profile)
    if nat_beq a.status 404
        then pure none
        else throw_if (failure_of a "get snapshot failed") (elim a.body [
          | snapshot_body seq blob ↦
              pure (some (record { snapshot_seq = seq; encrypted_payload = blob }))
          | _ ↦ throw (Failure.api ApiError.bad_payload)
        ])

  unfoldable pub api_put_server_snapshot : String → String → ℕ → String → Action R Unit
  unfolding call
  api_put_server_snapshot jwt profile seq blob =
      call (put_snapshot jwt profile seq blob) "put snapshot failed" (λ b. some tt)
