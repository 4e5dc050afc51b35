-- ===== src/Background/Handlers/Profiles/Others.antt =====
-- The deletion of a profile, as the data of the other ones see it.
use vaultmarks.Shared.{String, false, ◌==◌, ◌≡◌, refl, arith}
use vaultmarks.Shared.Dict.{get, get-delete}
use vaultmarks.Background.World.{Env, Database, World}
use vaultmarks.Background.Keeping.{
  Keeps, bind-Keeps, pure-Keeps, catching-Keeps, modify-Keeps, if-Keeps,
}
use vaultmarks.Background.Sound.{read-Keeps, set_database-Keeps}
use vaultmarks.Background.Handlers.Profiles.{handle_delete_profile, delete_profile_data}

-- The data of one profile and the queue.
abbrev pub SameData : String → Database → Database → Type 0
SameData p d d' =
    (get d'.snapshots p ≡ get d.snapshots p)
    × (get d'.id_maps p ≡ get d.id_maps p)
    × (get d'.last_seqs p ≡ get d.last_seqs p)
    × (get d'.last_uploads p ≡ get d.last_uploads p)
    × (d'.queue ≡ d.queue)

module _ {E : Env} where
  delete_data-Keeps :
      (p k : String) (d : Database)
      → (p == k) ≡ false
      → Keeps {W = World E} (λ w. SameData k d w.database) (delete_profile_data {E = E} p)
  unfolding delete_profile_data
  delete_data-Keeps p k d n =
      bind-Keeps
        (set_database-Keeps _ (λ w s i. i)
          (λ w i.
            (ground (arith, n, i.0, get-delete w.database.snapshots p k), i.1, i.2, i.3, i.4)))
        (λ a.
          set_database-Keeps _ (λ w s i. i)
            (λ w i. (
              i.0,
              ground (arith, n, i.1, get-delete w.database.id_maps p k),
              ground (arith, n, i.2, get-delete w.database.last_seqs p k),
              ground (arith, n, i.3, get-delete w.database.last_uploads p k),
              i.4,
            )))

  delete-Keeps :
      (p k : String) (d : Database)
      → (p == k) ≡ false
      → Keeps {W = World E} (λ w. SameData k d w.database) (handle_delete_profile {E = E} p)
  unfolding handle_delete_profile
  delete-Keeps p k d n = bind-Keeps (read-Keeps _ _) (λ active. if-Keeps _ (pure-Keeps _) (
      catching-Keeps (λ e. pure-Keeps _)
        (bind-Keeps (read-Keeps _ _) (λ t.
          bind-Keeps (record { keeps = λ w i. i })
            (λ a.
              bind-Keeps (modify-Keeps _ (λ w i. i))
                (λ b. bind-Keeps (delete_data-Keeps p k d n) (λ c. pure-Keeps _)))))))

  -- However a request to delete a profile ends, the snapshot, the mapping and the sequence ids of every
  -- other profile and the queued deltas are what they were.
  pub delete_keeps_others :
      (p k : String) (w : World E)
      → (p == k) ≡ false
      → SameData k w.database (handle_delete_profile p w).1.database
  delete_keeps_others p k w n =
      (delete-Keeps p k w.database n).keeps w (refl, refl, refl, refl, refl)
