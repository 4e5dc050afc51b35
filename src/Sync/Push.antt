-- ===== src/Sync/Push.antt =====
-- `_pushPendingInner` of extension/src/sync/client.ts.
pub mod Delivery
use vaultmarks.Shared.{
  ℕ, String, Bool, Option, none, some, List, [], ◌∷◌, ◌++◌, ◌==◌, ◌&&◌, ◌||◌, if◌then◌else◌,
  nat_beq,
}
use vaultmarks.Sync.Http.{ApiError, is_ok}
use vaultmarks.Sync.Queue.{QueuedDelta, peek, dequeue}

-- What the loop makes of one answer.
pub data Verdict : Type 0 where
  accepted revoked discarded retry : Verdict

-- The chain of tests on the answer; `is_active` is `item.profileId === activeProfile`.
unfoldable pub verdict : ℕ → Bool → Verdict
verdict status is_active =
    if is_ok status
    then Verdict.accepted
    else if nat_beq status 403 && is_active
    then Verdict.revoked
    else if nat_beq status 400 || (nat_beq status 403 || nat_beq status 404)
    then Verdict.discarded
    else Verdict.retry

-- How the loop ends: the ids in `succeeded`, or an error that it throws.
pub data Outcome : Type 0 where
  stopped : List String → Outcome
  thrown : ApiError → Outcome

-- `acknowledge(succeeded)`, unless the loop threw.
unfoldable pub settle : List QueuedDelta → Outcome → List QueuedDelta × Option ApiError
settle q (stopped succeeded) = (dequeue succeeded q, none)
settle q (thrown e) = (q, some e)

-- `send` is a request to the server, whose state is of type `S`; `none` is a `fetch` that throws.
module _ {S : Type 0} (send : S → QueuedDelta → Option ℕ × S) (active : String) where
  unfoldable pub push_items : S → List String → List QueuedDelta → Outcome × S
  push_items s succeeded [] = (stopped succeeded, s)
  push_items s succeeded (d ∷ ds) =
      let (answer, s') = send s d in
      let next = push_items s' (succeeded ++ d.id ∷ []) ds in
      elim answer [
        | none ↦ (thrown ApiError.request_failed, s')
        | some status ↦ elim (verdict status (d.profile_id == active)) [
          | Verdict.accepted ↦ next
          | Verdict.revoked ↦ (thrown ApiError.account_revoked, s')
          | Verdict.discarded ↦ next
          | Verdict.retry ↦ (stopped succeeded, s')
        ]
      ]

  -- What follows `peek(50)`: an empty batch returns at once.
  unfoldable pub drain :
      S → List QueuedDelta → List QueuedDelta → (List QueuedDelta × Option ApiError) × S
  drain s q [] = ((q, none), s)
  drain s q (d ∷ ds) = let (outcome, s') = push_items s [] (d ∷ ds) in (settle q outcome, s')

  -- The queue afterwards, the error thrown if any, and the server's state. A batch is 50 items.
  unfoldable pub push_pending_inner :
      S → List QueuedDelta → (List QueuedDelta × Option ApiError) × S
  push_pending_inner s q = drain s q (peek 50 q)
