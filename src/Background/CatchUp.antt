-- ===== src/Background/CatchUp.antt =====
-- A sync request that is skipped for a running one: syncFrom and runCatchUpSync of
-- extension/src/background/index.ts.
use vaultmarks.Shared.{true, List}
use vaultmarks.Background.Exclusive.{Flags, Event, requested, Syncs, happen, happen_all}
use vaultmarks.Background.World.{World}

-- The flags when the first sync ends.
abbrev pub flags_at_end : Syncs → List Event → Flags
flags_at_end s es = (happen_all (happen s (requested true)) es).flags
