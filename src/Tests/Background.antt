-- ===== src/Tests/Background.antt =====
-- The theorems on extension/src/background/index.ts at concrete events and rows.
use vaultmarks.Shared.{
  ℕ, ◌≤◌, ◌<◌, String, true, Option, some, List, [], ◌∷◌, ◌≡◌, ◌⊎◌, inl, inr, refl, arith, length,
  contains,
}
use vaultmarks.Shared.Dict.{get}
use vaultmarks.Sync.Server.{Table, rows_after, pull}
use vaultmarks.Sync.Pull.{RawDelta, ok, pull_pages}
use vaultmarks.Background.SyncFrom.{
  Worker, writes, perform_all, sync_from_inner, restarted, resume_seq, stopped_after,
}
use vaultmarks.Background.SyncFrom.Durable.{Updates, IsWhole, IsDurable, sync_survives}
use vaultmarks.Background.Exclusive.{
  initial_flags, requested, finished, switching_set, Event, happen_all,
}
use vaultmarks.Background.Exclusive.Served.{reactive_alone}

-- A document that is the list of its updates.
abbrev IsAmong : String → List String → Type 0
IsAmong p [] = ⊥
IsAmong p (q ∷ qs) = (q ≡ p) ⊎ IsAmong p qs

abbrev log : Updates (List String) String
log = record {
  import_update = λ p d. p ∷ d;
  Has = λ d p. IsAmong p d;
  has-import = λ p d. inl refl;
  has-keep = λ p q d h. inr h;
}

abbrev decode : String → Option String
decode s = some s

abbrev table : Table
table = record {
  rows =
      record { sequence_id = 1; profile_id = "p"; payload = "one" }
      ∷ record { sequence_id = 2; profile_id = "q"; payload = "two" }
      ∷ record { sequence_id = 4; profile_id = "p"; payload = "four" }
      ∷ [];
  next_seq = 5;
  owned = "p" ∷ [];
}

-- The first row was stored.
abbrev worker : Worker (List String)
worker = record { doc = []; snapshots = ("p", "one" ∷ []) ∷ []; last_seqs = ("p", 1) ∷ [] }

abbrev IsStoredUp : Worker (List String) → Type 0
IsStoredUp x = IsDurable log "p" decode (λ s. s) decode (λ d. d.payload) [] table.rows x

worker-IsDurable : IsStoredUp worker
unfolding resume_seq restarted get
worker-IsDurable = (
  (λ h k. inl refl),
  ((λ h k. absurd (ground (arith, h))), ((λ h k. absurd (omega (arith, k))), tt)),
)

fewer : length (rows_after "p" (resume_seq "p" worker) table.rows) < 3
unfolding rows_after resume_seq get
fewer = ground arith

sync_survives_example :
    (deltas : List (RawDelta String)) × (pull_pages decode
        (pull decode (λ s. s) table "p")
        3
        (resume_seq "p" worker)
        []
      ≡ some (ok deltas))
    × IsWhole log "p" decode
        (λ s. s)
        decode
        (λ d. d.payload)
        table.rows
        (sync_from_inner log.import_update "p" (restarted "p" [] worker) (ok deltas)).doc
    × ((k : ℕ)
        → IsStoredUp (
            perform_all log.import_update "p"
              (restarted "p" [] worker)
              (stopped_after k (writes deltas))))
sync_survives_example =
    sync_survives log "p" decode (λ s. s) decode (λ d. d.payload) [] table worker 3
      (unfold contains in refl) ((omega arith, (omega arith, tt)), ((omega arith, tt), (tt, tt)))
      ((λ h. refl), ((λ h. refl), ((λ h. refl), tt))) worker-IsDurable fewer

abbrev events : List Event
events = requested true ∷ requested true ∷ finished ∷ switching_set true ∷ requested true ∷ []

reactive_alone_example :
    (happen_all (record { flags = initial_flags; running = 0 }) events).running ≤ 1
reactive_alone_example = reactive_alone events (refl, (refl, (refl, (refl, (refl, tt)))))
