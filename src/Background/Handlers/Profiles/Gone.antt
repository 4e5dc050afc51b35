-- ===== src/Background/Handlers/Profiles/Gone.antt =====
-- What a request to delete a profile leaves: handleDeleteProfile of extension/src/background/index.ts.
use vaultmarks.Shared.{String, false, none, some, ◌==◌, ◌≡◌, refl, arith, inl, inr, ◌⊎◌, eq_iff}
use vaultmarks.Shared.Dict.{Dict, get, delete, get-delete}
use vaultmarks.Sync.Action.{Failure, Result, done, failed, modify}
use vaultmarks.Auth.Store.{Auth}
use vaultmarks.Auth.Session.{get_profiles, get_active_profile_id, remove_profile, without_profile}
use vaultmarks.Background.World.{Env, World}
use vaultmarks.Background.Steps.{write_failed}
use vaultmarks.Background.Ending.{
  bind-Ends, catching-Ends, pure-Ends, any-Ends, read-Ends, if-Ends, write-Ends,
}
use vaultmarks.Background.Messages.{Response, delete_profile_success, delete_profile_error}
use vaultmarks.Background.Handlers.Profiles.{handle_delete_profile, delete_profile_data}

removed-get_profiles :
    {K : Type 0} (id : String) (a : Auth K)
    → get_profiles (remove_profile id a) ≡ without_profile id (get_profiles a)
unfolding remove_profile get_profiles without_profile
removed-get_profiles id a = ground arith

deleted : {V : Type 0} (id : String) (d : Dict V) → get (delete d id) id ≡ none
deleted id d = ground (arith, get-delete d id id, eq_iff id id)

-- A profile is active, and it is not this one.
abbrev pub IsOther : {K : Type 0} → String → Auth K → Type 0
IsOther profile a =
    (active : String) × (get_active_profile_id a ≡ some active) × ((profile == active) ≡ false)

module _ {E : Env} where
  -- The ends of a request to delete a profile: it is gone with its data, nothing has changed, or it
  -- is out of the list and the deletion of its data failed.
  abbrev pub IsGone : String → World E → Result Response × World E → Type 0
  IsGone profile w (r, w') =
      ((r ≡ done delete_profile_success)
        × IsOther profile w.auth
        × (get_profiles w'.auth ≡ without_profile profile (get_profiles w.auth))
        × (get w'.database.snapshots profile ≡ none)
        × (get w'.database.id_maps profile ≡ none)
        × (get w'.database.last_seqs profile ≡ none)
        × (get w'.database.last_uploads profile ≡ none)
        × (w'.database.queue ≡ w.database.queue))
      ⊎ ((e : Failure) × ((r ≡ done (delete_profile_error e)) ⊎ (r ≡ failed e))
          × (w'.auth ≡ w.auth)
          × (w'.database ≡ w.database))
      ⊎ ((r ≡ done (delete_profile_error write_failed))
          × IsOther profile w.auth
          × (get_profiles w'.auth ≡ without_profile profile (get_profiles w.auth))
          × ((w'.database ≡ w.database)
              ⊎ (w'.database
                  ≡ record w.database { snapshots = delete w.database.snapshots profile })))

  -- However it ends, a write of the database that fails included: a request to delete a profile that
  -- is not the active one takes it out of the list with its snapshot, its mapping and its sequence
  -- ids, while the queued deltas stay; or it leaves the session and the database as they were; or it
  -- answers the failed write as an error with the profile out of the list, where of its data at most
  -- the snapshot is deleted.
  pub delete_profile-IsGone :
      (profile : String) (w : World E) → IsGone profile w (handle_delete_profile profile w)
  unfolding handle_delete_profile modify delete_profile_data
  delete_profile-IsGone profile w =
      (read-Ends (λ r w'. IsGone profile w (r, w')) _ _ _ w
        (λ active e.
          if-Ends _ (profile == active) _ _ w
            (λ same. pure-Ends _ _ _ (inr (inl (_, inl refl, refl, refl))))
            (λ other.
              let out = removed-get_profiles profile w.auth in
              catching-Ends _ _ _ w (
                read-Ends _ _ _ _ w
                  (λ token k.
                    any-Ends _ _ _ w
                      (λ u. bind-Ends _ _ _ _ (record {
                        ends = bind-Ends _ _ _ _ (
                            bind-Ends _ _ _ _ (
                              write-Ends _ _ _
                                (write-Ends _ _ _
                                  (pure-Ends _ _ _ (
                                    inl (
                                      refl,
                                      (active, e, other),
                                      out,
                                      deleted profile w.database.snapshots,
                                      deleted profile w.database.id_maps,
                                      deleted profile w.database.last_seqs,
                                      deleted profile w.database.last_uploads,
                                      refl,
                                    )))
                                  (pure-Ends _ _ _
                                    (inr (inr (refl, (active, e, other), out, inr refl)))))
                                (pure-Ends _ _ _
                                  (inr (inr (refl, (active, e, other), out, inl refl))))));
                      }))
                      (λ f. pure-Ends _ _ _ (inr (inl (f, inl refl, refl, refl)))))
                  (pure-Ends _ _ _ (inr (inl (_, inl refl, refl, refl)))))))
        (inr (inl (_, inr refl, refl, refl)))).ends
