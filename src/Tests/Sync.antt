-- ===== src/Tests/Sync.antt =====
-- The theorems on extension/src/sync at a concrete server and queue.
use vaultmarks.Shared.{
  ℕ, zero, suc, ◌<◌, String, Option, none, some, List, [], ◌∷◌, ◌≡◌, refl, arith, length, contains,
  if◌then◌else◌, ◌==◌,
}
use vaultmarks.Sync.Queue.{QueuedDelta, dequeue, peek}
use vaultmarks.Sync.Queue.Front.{HaveDistinctIds}
use vaultmarks.Sync.Server.{Delta, Table, pull, rows_after}
use vaultmarks.Sync.Push.{push_pending_inner, push_items, drain, settle, verdict}
use vaultmarks.Sync.Push.Delivery.{
  IsAnswered, delivered, send_to, push_pending_inner-IsAnswered, push_delivers,
}
use vaultmarks.Sync.Pull.{ok, pull_pages}
use vaultmarks.Sync.Pull.Complete.{view, pull_complete}

-- A codec that marks what it encodes.
abbrev encode : String → String
encode s = s

abbrev decode : String → Option String
decode s = some s

abbrev table : Table
table = record {
  rows =
      record { sequence_id = 1; profile_id = "p"; payload = "one" }
      ∷ record { sequence_id = 2; profile_id = "q"; payload = "two" }
      ∷ record { sequence_id = 4; profile_id = "p"; payload = "four" }
      ∷ [];
  next_seq = 5;
  owned = "p" ∷ [];
}

-- Only what the client has encrypted passes; the row of the other profile does not.
abbrev decrypt : String → Option String
decrypt s = if s == "two" then none else some s

abbrev plain : Delta → String
plain d = d.payload

fewer : length (rows_after "p" 0 table.rows) < 3
unfolding rows_after
fewer = ground arith

pull_complete_example :
    pull_pages decrypt (pull decode encode table "p") 3 0 []
    ≡ some (ok (view plain (rows_after "p" 0 table.rows)))
pull_complete_example =
    pull_complete decode encode decrypt plain table "p" (unfold contains in refl)
      ((omega arith, (omega arith, tt)), ((omega arith, tt), (tt, tt)))
      ((λ h. refl), ((λ h. absurd (ground (arith, h))), ((λ h. refl), tt))) 0 3 fewer

abbrev queued : String → String → ℕ → QueuedDelta
queued id text time = record { id = id; profile_id = "p"; encrypted_delta = text; timestamp = time }

abbrev queue : List QueuedDelta
queue = queued "a" "new" 1 ∷ queued "b" "newer" 2 ∷ []

queue-HaveDistinctIds : HaveDistinctIds queue
queue-HaveDistinctIds = ((refl, tt), (tt, tt))

push_delivers_example :
    push_pending_inner (send_to decode encode) "p" table queue
    ≡ (([], none), delivered decode encode (λ d. d.encrypted_delta) "p" table queue)
push_delivers_example =
    push_delivers decode encode (λ d. d.encrypted_delta) "p" table queue queue-HaveDistinctIds
      (unfold contains in ((refl, refl), ((refl, refl), tt)))

-- A server that accepts the first request, finds nothing for the second and is then busy.
abbrev busy : ℕ → QueuedDelta → Option ℕ × ℕ
busy zero d = (some 200, 1)
busy (suc zero) d = (some 404, 2)
busy n d = (some 503, n)

abbrev three_queued : List QueuedDelta
three_queued = queued "a" "new" 1 ∷ queued "b" "newer" 2 ∷ queued "c" "newest" 3 ∷ []

three_queued-HaveDistinctIds : HaveDistinctIds three_queued
three_queued-HaveDistinctIds = ((refl, (refl, tt)), ((refl, tt), (tt, tt)))

push_pending_inner-IsAnswered_example :
    IsAnswered busy "p" 0 three_queued (push_pending_inner busy "p" 0 three_queued).0
push_pending_inner-IsAnswered_example =
    push_pending_inner-IsAnswered busy "p" 0 three_queued three_queued-HaveDistinctIds

-- The third delta stays.
three_pushed : (push_pending_inner busy "p" 0 three_queued).0 ≡ (queued "c" "newest" 3 ∷ [], none)
unfolding push_pending_inner drain push_items verdict settle dequeue peek contains
three_pushed = refl
