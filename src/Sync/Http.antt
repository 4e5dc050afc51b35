-- ===== src/Sync/Http.antt =====
-- HTTP answers and the errors that extension/src/sync/client.ts makes of them.
use vaultmarks.Shared.{
  ℕ, Bool, true, false, ◌&&◌, Option, none, some, if◌then◌else◌, nat_beq, leb, ltb,
}

-- The classes of errors that the callers tell apart. `request_failed` is what `fetch` itself
-- throws, `http_error` the plain `Error` of any other status.
pub data ApiError : Type 0 where
  auth_expired account_revoked invalid_credentials http_error request_failed bad_payload : ApiError

-- `err instanceof AuthExpiredError`: the class of a revoked account extends that of an expired one.
unfoldable pub is_auth_expired : ApiError → Bool
is_auth_expired ApiError.auth_expired = true
is_auth_expired ApiError.account_revoked = true
is_auth_expired _ = false

-- `res.ok`
abbrev pub is_ok : ℕ → Bool
is_ok status = leb 200 status && ltb status 300

-- The error that `throwIfNotOk` throws, if any.
unfoldable pub throw_if_not_ok : ℕ → Option ApiError
throw_if_not_ok status =
    if is_ok status
    then none
    else if nat_beq status 401
    then some ApiError.auth_expired
    else if nat_beq status 403
    then some ApiError.account_revoked
    else some ApiError.http_error
