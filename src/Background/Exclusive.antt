-- ===== src/Background/Exclusive.antt =====
-- The guards of `syncFrom` in extension/src/background/index.ts, as transitions of the module's
-- flags.
pub mod Served
use vaultmarks.Shared.{ℕ, zero, suc, Bool, true, false, ◌&&◌, ◌||◌, if◌then◌else◌, List, [], ◌∷◌}

pub record Flags : Type 0 where
  pub sync_in_progress : Bool
  pub sync_paused : Bool
  pub switch_in_progress : Bool
  pub resync_requested : Bool

abbrev pub initial_flags : Flags
initial_flags = record {
  sync_in_progress = false;
  sync_paused = false;
  switch_in_progress = false;
  resync_requested = false;
}

-- The tests before the `try`: whether the sync runs, and the flags.
unfoldable pub enter : Bool → Flags → Bool × Flags
enter exclusive f =
    if f.sync_paused
    then (false, f)
    else if exclusive && (f.switch_in_progress || f.sync_in_progress)
    then (false, if f.switch_in_progress then f else record f { resync_requested = true })
    else (true, record f { sync_in_progress = true })

-- An exclusive request may come while a sync is in progress, where it does not run.
unfoldable pub overlap : Bool → Flags → Flags
unfolding enter
overlap comes f = if comes then (enter true f).1 else f

-- The `finally`: whether `runCatchUpSync` is called, whose own guards are the worker's, and the flags.
unfoldable pub leave : Flags → Bool × Flags
leave f =
    if f.resync_requested
    then (true, record f { sync_in_progress = false; resync_requested = false })
    else (false, record f { sync_in_progress = false })

-- What changes the flags; the handlers set the two others around their own work.
pub data Event : Type 0 where
  requested : Bool → Event
  finished : Event
  switching_set : Bool → Event
  pause_set : Bool → Event

-- The flags, and how many syncs are running.
pub record Syncs : Type 0 where
  pub flags : Flags
  pub running : ℕ

unfoldable pub happen : Syncs → Event → Syncs
unfolding enter leave
happen s (requested exclusive) =
    let (runs, f) = enter exclusive s.flags in
    record { flags = f; running = if runs then suc s.running else s.running }
happen s finished = elim s.running [
  | zero ↦ s
  | suc n ↦ record { flags = (leave s.flags).1; running = n }
]
happen s (switching_set b) = record s { flags = record s.flags { switch_in_progress = b } }
happen s (pause_set b) = record s { flags = record s.flags { sync_paused = b } }

unfoldable pub happen_all : Syncs → List Event → Syncs
happen_all s [] = s
happen_all s (e ∷ es) = happen_all (happen s e) es
