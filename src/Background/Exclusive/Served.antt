-- ===== src/Background/Exclusive/Served.antt =====
-- How many reactive syncs run at a time, and what a request that is skipped for a running one
-- leaves: `syncFrom` of extension/src/background/index.ts.
use vaultmarks.Shared.{◌≤◌, Bool, true, false, List, [], ◌∷◌, ◌≡◌, ◌⊎◌, inl, inr, refl, arith, All}
use vaultmarks.Background.Exclusive.{
  Flags, initial_flags, enter, leave, Event, requested, finished, switching_set, pause_set, Syncs,
  happen, happen_all,
}

-- Every request is an exclusive one.
abbrev pub is_reactive : Event → Bool
is_reactive (requested exclusive) = exclusive
is_reactive finished = true
is_reactive (switching_set b) = true
is_reactive (pause_set b) = true

abbrev pub is_finish : Event → Bool
is_finish finished = true
is_finish (requested exclusive) = false
is_finish (switching_set b) = false
is_finish (pause_set b) = false

-- At most one sync runs, and the flag says whether one does.
abbrev IsAlone : Syncs → Type 0
IsAlone s =
    ((s.running ≡ 0) × (s.flags.sync_in_progress ≡ false))
    ⊎ ((s.running ≡ 1) × (s.flags.sync_in_progress ≡ true))

happen-IsAlone : (s : Syncs) (e : Event) → is_reactive e ≡ true → IsAlone s → IsAlone (happen s e)
unfolding happen enter leave
happen-IsAlone s (requested exclusive) h a = ground (arith, h, a)
happen-IsAlone s finished h a = ground (arith, a)
happen-IsAlone s (switching_set b) h a = a
happen-IsAlone s (pause_set b) h a = a

happen_all-IsAlone :
    (s : Syncs) (es : List Event)
    → All (λ e. is_reactive e ≡ true) es
    → IsAlone s
    → IsAlone (happen_all s es)
unfolding happen_all
happen_all-IsAlone s [] h a = a
happen_all-IsAlone s (e ∷ es) h a =
    happen_all-IsAlone (happen s e) es h.1 (happen-IsAlone s e h.0 a)

-- From the start, whatever requests, ends, switches and pauses happen in whatever order, where
-- every request is exclusive: at most one sync is running.
pub reactive_alone :
    (es : List Event)
    → All (λ e. is_reactive e ≡ true) es
    → (happen_all (record { flags = initial_flags; running = 0 }) es).running ≤ 1
reactive_alone es h =
    elim (happen_all-IsAlone (record { flags = initial_flags; running = 0 }) es h
      (inl (refl, refl))) [ inl a ↦ omega (arith, a.0) | inr a ↦ omega (arith, a.0) ]

abbrev pub IsWaiting : Flags → Type 0
IsWaiting f = (f.sync_in_progress ≡ true) × (f.resync_requested ≡ true)

happen-IsWaiting :
    (s : Syncs) (e : Event) → is_finish e ≡ false → IsWaiting s.flags → IsWaiting (happen s e).flags
unfolding happen enter
happen-IsWaiting s (requested exclusive) h a = ground (arith, a)
happen-IsWaiting s finished h a = absurd (ground (arith, h))
happen-IsWaiting s (switching_set b) h a = a
happen-IsWaiting s (pause_set b) h a = a

happen_all-IsWaiting :
    (s : Syncs) (es : List Event)
    → All (λ e. is_finish e ≡ false) es
    → IsWaiting s.flags
    → IsWaiting (happen_all s es).flags
unfolding happen_all
happen_all-IsWaiting s [] h a = a
happen_all-IsWaiting s (e ∷ es) h a =
    happen_all-IsWaiting (happen s e) es h.1 (happen-IsWaiting s e h.0 a)

-- After a request that is skipped for a running sync, one is in progress and a request waits.
pub skipped-IsWaiting :
    (s : Syncs) (es : List Event)
    → s.flags.sync_paused ≡ false
    → s.flags.switch_in_progress ≡ false
    → (enter true s.flags).0 ≡ false
    → All (λ e. is_finish e ≡ false) es
    → IsWaiting (happen_all (happen s (requested true)) es).flags
skipped-IsWaiting s es paused switching skipped h =
    happen_all-IsWaiting (happen s (requested true)) es h (waiting s paused switching skipped)
  where
    waiting :
        (s : Syncs)
        → s.flags.sync_paused ≡ false
        → s.flags.switch_in_progress ≡ false
        → (enter true s.flags).0 ≡ false
        → IsWaiting (happen s (requested true)).flags
    waiting s paused switching skipped =
        unfold happen enter in ground (arith, paused, switching, skipped)
