-- ===== src/Background/Handlers/Profiles/Whole.antt =====
-- What a request for a new profile leaves: handleCreateProfile of extension/src/background/index.ts.
use vaultmarks.Shared.{String, some, [], ◌∷◌, ◌++◌, ◌≡◌, refl, arith, inl, inr, ◌⊎◌, eq_iff}
use vaultmarks.Shared.Dict.{Dict, get, put, get-put}
use vaultmarks.Sync.Action.{Failure, Result, done, gets, modify}
use vaultmarks.Auth.Store.{Auth, ProfileInfo}
use vaultmarks.Auth.Session.{get_profiles, add_profile}
use vaultmarks.Background.World.{Env, World}
use vaultmarks.Background.Steps.{write_failed}
use vaultmarks.Background.Ending.{
  bind-Ends, catching-Ends, pure-Ends, any-Ends, read-Ends, write-Ends,
}
use vaultmarks.Background.Messages.{Response, create_profile_success, create_profile_error}
use vaultmarks.Background.Handlers.Profiles.{handle_create_profile, seed_empty}

added-get_profiles :
    {K : Type 0} (p : ProfileInfo) (a b : Auth K)
    → add_profile p a ≡ some b
    → get_profiles b ≡ get_profiles a ++ p ∷ []
unfolding add_profile get_profiles
added-get_profiles p a b h = ground (arith, h)

found : {V : Type 0} (d : Dict V) (k : String) (v : V) → get (put d k v) k ≡ some v
found d k v = ground (arith, get-put d k v k, eq_iff k k)

module _ {E : Env} where
  -- The ends of a request for a new profile: it is there with its data, nothing has changed, or it
  -- is in the list and a write of its data failed.
  abbrev pub IsWhole : World E → Result Response × World E → Type 0
  IsWhole w (r, w') =
      ((p : ProfileInfo) × (r ≡ done (create_profile_success p))
        × (get_profiles w'.auth ≡ get_profiles w.auth ++ p ∷ [])
        × (get w'.database.snapshots p.id ≡ some (E.export_snapshot E.loro.empty_doc))
        × (get w'.database.id_maps p.id ≡ some []))
      ⊎ ((e : Failure) × (r ≡ done (create_profile_error e))
          × (w'.auth ≡ w.auth)
          × (w'.database ≡ w.database))
      ⊎ ((p : ProfileInfo) × (r ≡ done (create_profile_error write_failed))
          × (get_profiles w'.auth ≡ get_profiles w.auth ++ p ∷ [])
          × ((w'.database ≡ w.database)
              ⊎ (w'.database ≡ record w.database {
                snapshots = put w.database.snapshots p.id (E.export_snapshot E.loro.empty_doc);
              })))

  -- However it ends, a write of the database that fails included: a request for a new profile adds
  -- one profile to the end of the list, with an empty document and an empty mapping stored for it;
  -- or it answers an error and leaves the session and the database as they were; or it answers the
  -- failed write as an error with the profile in the list, where of its data at most the document
  -- is stored.
  pub create_profile-IsWhole :
      (name : String) (w : World E) → IsWhole w (handle_create_profile name w)
  unfolding handle_create_profile seed_empty gets modify
  create_profile-IsWhole name w =
      (catching-Ends (λ r w'. IsWhole w (r, w')) _ _ w
        (read-Ends _ _ _ _ w
          (λ key e.
            read-Ends _ _ _ _ w
              (λ token e.
                any-Ends _ _ _ w
                  (λ p. bind-Ends _ _ _ _ (record {
                    ends =
                        read-Ends _ (λ v. add_profile p w.auth) _ _ _
                          (λ a e.
                            let added = added-get_profiles p w.auth a e in
                            let snapshot = E.export_snapshot E.loro.empty_doc in
                            bind-Ends _ _ _ _ (record {
                              ends = bind-Ends _ _ _ _ (
                                  bind-Ends _ _ _ _ (
                                    write-Ends _ _ _
                                      (write-Ends _ _ _
                                        (pure-Ends _ _ _ (
                                          inl (
                                            p,
                                            refl,
                                            added,
                                            found w.database.snapshots p.id snapshot,
                                            found w.database.id_maps p.id [],
                                          )))
                                        (pure-Ends _ _ _ (inr (inr (p, refl, added, inr refl)))))
                                      (pure-Ends _ _ _ (inr (inr (p, refl, added, inl refl))))));
                            }))
                          (pure-Ends _ _ _ (inr (inl (_, refl, refl, refl))));
                  }))
                  (λ e. pure-Ends _ _ _ (inr (inl (e, refl, refl, refl)))))
              (pure-Ends _ _ _ (inr (inl (_, refl, refl, refl)))))
          (pure-Ends _ _ _ (inr (inl (_, refl, refl, refl)))))).ends
