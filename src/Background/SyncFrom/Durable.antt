-- ===== src/Background/SyncFrom/Durable.antt =====
-- A sync that is stopped between two writes loses nothing.
use vaultmarks.Shared.{
  ℕ, zero, suc, ◌≤◌, ◌<◌, String, true, false, Option, some, List, [], ◌∷◌, ◌++◌, ◌==◌, ◌⊎◌, ◌≡◌,
  refl, sym, subst, ◌∙◌, arith, inl, inr, contains, length, eq_iff, Bool-cases, All,
}
use vaultmarks.Shared.Dict.{Dict, get, put, get-put}
use vaultmarks.Sync.Server.{Delta, Table, is_after, rows_after, pull}
use vaultmarks.Sync.Pull.{RawDelta, ok, last_seq, pull_pages}
use vaultmarks.Sync.Pull.Complete.{IsSorted, IsReadable, view, pull_complete}
use vaultmarks.Background.SyncFrom.{
  Worker, update_imported, snapshot_saved, seq_set, imports, writes, perform, perform_all,
  sync_from_inner, restarted, resume_seq, stopped_after,
}

-- The updates that a document has: an import adds the update and keeps the others.
pub record Updates (D P : Type 0) : Type 1 where
  pub import_update : P → D → D
  pub Has : D → P → Type 0
  pub has-import : (p : P) (d : D) → Has (import_update p d) p
  pub has-keep : (p q : P) (d : D) → Has d q → Has (import_update p d) q

get-saved : {V : Type 0} (m : Dict V) (k : String) (v : V) → get (put m k v) k ≡ some v
get-saved m k v = ground (arith, get-put m k v k, eq_iff k k)

module _ {D P : Type 0} (U : Updates D P) (profile : String) where
  -- What the writes leave in the database: nothing new, or a document with everything that the one
  -- in memory had and with every pulled update.
  record IsStored (w w' : Worker D) (ds : List (RawDelta P)) : Type 0 where
    document : D
    saved : get w'.snapshots profile ≡ some document
    older : (q : P) → U.Has w.doc q → U.Has document q
    newer : All (λ x. U.Has document x.1) ds

  abbrev Kept : Worker D → Worker D → Type 0
  Kept w w' = (w'.snapshots ≡ w.snapshots) × (w'.last_seqs ≡ w.last_seqs)

  stopped_writes :
      (w : Worker D) (ds : List (RawDelta P)) (k n : ℕ)
      → Kept w (
          perform_all U.import_update profile w
            (stopped_after k (imports ds ++ snapshot_saved ∷ seq_set n ∷ [])))
        ⊎ IsStored w
            (perform_all U.import_update profile w
              (stopped_after k (imports ds ++ snapshot_saved ∷ seq_set n ∷ [])))
            ds
  unfolding perform_all perform stopped_after imports
  stopped_writes w [] zero n = inl (refl, refl)
  stopped_writes w [] (suc zero) n = inr (record {
    document = w.doc;
    saved = get-saved w.snapshots profile w.doc;
    older = λ q h. h;
    newer = tt;
  })
  stopped_writes w [] (suc (suc zero)) n = inr (record {
    document = w.doc;
    saved = get-saved w.snapshots profile w.doc;
    older = λ q h. h;
    newer = tt;
  })
  stopped_writes w [] (suc (suc (suc k))) n = inr (record {
    document = w.doc;
    saved = get-saved w.snapshots profile w.doc;
    older = λ q h. h;
    newer = tt;
  })
  stopped_writes w ((seq, p) ∷ ds) zero n = inl (refl, refl)
  stopped_writes w ((seq, p) ∷ ds) (suc k) n =
      elim (stopped_writes (perform U.import_update profile w (update_imported p)) ds k n) [
        | inl same ↦ inl same
        | inr s ↦ inr (record {
          document = s.document;
          saved = s.saved;
          older = λ q h. s.older q (U.has-keep p q w.doc h);
          newer = (s.older p (U.has-import p w.doc), s.newer);
        })
      ]

  -- All writes of a sync leave a document in memory with every pulled update.
  record IsPerformed (w w' : Worker D) (ds : List (RawDelta P)) : Type 0 where
    older : (q : P) → U.Has w.doc q → U.Has w'.doc q
    newer : All (λ x. U.Has w'.doc x.1) ds

  all_writes :
      (w : Worker D) (ds : List (RawDelta P)) (n : ℕ)
      → IsPerformed w
          (perform_all U.import_update profile w (imports ds ++ snapshot_saved ∷ seq_set n ∷ []))
          ds
  unfolding perform_all perform imports
  all_writes w [] n = record { older = λ q h. h; newer = tt }
  all_writes w ((seq, p) ∷ ds) n =
      let s = all_writes (perform U.import_update profile w (update_imported p)) ds n in
      record {
        older = λ q h. s.older q (U.has-keep p q w.doc h);
        newer = (s.older p (U.has-import p w.doc), s.newer);
      }

module _ {D P : Type 0} (U : Updates D P) (profile : String) (decode : String → Option String)
    (encode : String → String) (decrypt : String → Option P) (plain : Delta → P) where
  -- The document has every row of the profile up to a sequence id.
  abbrev pub IsCovered : List Delta → ℕ → D → Type 0
  IsCovered rows c d =
      All (λ e. (e.profile_id == profile) ≡ true → e.sequence_id ≤ c → U.Has d (plain e)) rows

  -- The document has every row of the profile.
  abbrev pub IsWhole : List Delta → D → Type 0
  IsWhole rows d = All (λ e. (e.profile_id == profile) ≡ true → U.Has d (plain e)) rows

  abbrev Newer : ℕ → List Delta → D → Type 0
  Newer c rows d = All (λ x. U.Has d x.1) (view plain (rows_after profile c rows))

  Newer-row :
      (e : Delta) (rows : List Delta) (c : ℕ) (d : D)
      → is_after profile c e ≡ true
      → Newer c (e ∷ rows) d
      → U.Has d (plain e) × Newer c rows d
  unfolding rows_after view
  Newer-row e rows c d h = rw h (λ a. a)

  older_row :
      (e : Delta) (rows : List Delta) (c : ℕ) (d : D)
      → is_after profile c e ≡ false
      → Newer c (e ∷ rows) d
      → Newer c rows d
  unfolding rows_after view
  older_row e rows c d h = rw h (λ a. a)

  covered-IsWhole :
      (rows : List Delta) (c : ℕ) (d d' : D)
      → ((q : P) → U.Has d q → U.Has d' q)
      → IsCovered rows c d
      → Newer c rows d'
      → IsWhole rows d'
  covered-IsWhole [] c d d' older a newer = tt
  covered-IsWhole (e ∷ rows) c d d' older a newer = elim (Bool-cases (is_after profile c e)) [
    | inl later ↦
        (let (here, rest) = Newer-row e rows c d' later newer in
          ((λ h. here), covered-IsWhole rows c d d' older a.1 rest))
    | inr not_later ↦ (
      (λ h. older (plain e) (a.0 h (ground (arith, not_later, h)))),
      covered-IsWhole rows c d d' older a.1 (older_row e rows c d' not_later newer),
    )
  ]

  whole-IsCovered : (rows : List Delta) (c : ℕ) (d : D) → IsWhole rows d → IsCovered rows c d
  whole-IsCovered [] c d a = tt
  whole-IsCovered (e ∷ rows) c d a = ((λ h k. a.0 h), whole-IsCovered rows c d a.1)

  -- What the next start of the worker finds has every row up to where it goes on to pull.
  abbrev pub IsDurable : D → List Delta → Worker D → Type 0
  IsDurable empty_doc rows x =
      IsCovered rows (resume_seq profile x) (restarted profile empty_doc x).doc

  IsDurable-again :
      (empty_doc : D) (rows : List Delta) (w x : Worker D)
      → Kept U profile w x
      → IsDurable empty_doc rows w
      → IsDurable empty_doc rows x
  unfolding resume_seq restarted
  IsDurable-again empty_doc rows w x (snaps, seqs) d = rw (snaps, seqs) d

  stored-IsDurable :
      (empty_doc : D) (rows : List Delta) (x : Worker D) (d : D)
      → get x.snapshots profile ≡ some d
      → IsWhole rows d
      → IsDurable empty_doc rows x
  stored-IsDurable empty_doc rows x d e a =
      subst (IsCovered rows (resume_seq profile x)) (sym (found_document empty_doc x e))
        (whole-IsCovered rows (resume_seq profile x) d a)
    where
      found_document :
          (empty_doc : D) (x : Worker D) {d : D}
          → get x.snapshots profile ≡ some d
          → (restarted profile empty_doc x).doc ≡ d
      found_document empty_doc x e = unfold restarted in rw e refl

  module _ (empty_doc : D) (rows : List Delta) (w : Worker D) (a : IsDurable empty_doc rows w) where
    abbrev started : Worker D
    started = restarted profile empty_doc w

    started-Kept : Kept U profile w started
    unfolding restarted
    started-Kept = (refl, refl)

    stopped-IsDurable :
        (ds : List (RawDelta P)) (k : ℕ)
        → view plain (rows_after profile (resume_seq profile w) rows) ≡ ds
        → IsDurable empty_doc rows
            (perform_all U.import_update profile started (stopped_after k (writes ds)))
    unfolding writes
    stopped-IsDurable [] zero e =
        unfold stopped_after perform_all in IsDurable-again empty_doc rows w started started-Kept a
    stopped-IsDurable [] (suc k) e =
        unfold stopped_after perform_all in IsDurable-again empty_doc rows w started started-Kept a
    stopped-IsDurable (x ∷ ds) k e =
        elim (stopped_writes U profile started (x ∷ ds) k (last_seq 0 (x ∷ ds))) [
          | inl same ↦
              IsDurable-again empty_doc rows w
                (perform_all U.import_update profile started (stopped_after k (writes (x ∷ ds))))
                (same.0 ∙ started-Kept.0, same.1 ∙ started-Kept.1) a
          | inr s ↦
              stored-IsDurable empty_doc rows
                (perform_all U.import_update profile started (stopped_after k (writes (x ∷ ds))))
                s.document s.saved
                (covered-IsWhole rows (resume_seq profile w) started.doc s.document s.older a
                  (subst (All (λ y. U.Has s.document y.1)) (sym e) s.newer))
        ]

    synced-IsWhole :
        (ds : List (RawDelta P))
        → view plain (rows_after profile (resume_seq profile w) rows) ≡ ds
        → IsWhole rows (sync_from_inner U.import_update profile started (ok ds)).doc
    unfolding writes sync_from_inner
    synced-IsWhole [] e =
        unfold perform_all in
        covered-IsWhole rows (resume_seq profile w) started.doc started.doc (λ q h. h) a
          (subst (All (λ y. U.Has started.doc y.1)) (sym e) tt)
    synced-IsWhole (x ∷ ds) e =
        let s = all_writes U profile started (x ∷ ds) (last_seq 0 (x ∷ ds)) in
        covered-IsWhole rows (resume_seq profile w) started.doc
          (sync_from_inner U.import_update profile started (ok (x ∷ ds))).doc s.older a
          (subst
            (All
              (λ y. U.Has (sync_from_inner U.import_update profile started (ok (x ∷ ds))).doc y.1))
            (sym e) s.newer)

  -- For any document library whose import of an update adds it and keeps the others, against the
  -- server's `pull`, for a profile of the user, rows in the order of their sequence ids and a table
  -- whose rows of the profile the client can decrypt: where the stored document has every row up to
  -- the sequence id that the worker goes on from, the worker that was started again pulls without an
  -- error, after `_syncFromInner` its document has every row of the profile, and wherever between
  -- the writes it is stopped, the stored document again has every row up to where the worker will go
  -- on from.
  pub sync_survives :
      (empty_doc : D) (t : Table) (w : Worker D) (fuel : ℕ)
      → contains t.owned profile ≡ true
      → IsSorted t.rows
      → IsReadable decode encode decrypt plain profile t.rows
      → IsDurable empty_doc t.rows w
      → length (rows_after profile (resume_seq profile w) t.rows) < fuel
      → (deltas : List (RawDelta P)) × (pull_pages decrypt
            (pull decode encode t profile)
            fuel
            (resume_seq profile w)
            []
          ≡ some (ok deltas))
        × IsWhole t.rows
            (sync_from_inner U.import_update profile
              (restarted profile empty_doc w)
              (ok deltas)).doc
        × ((k : ℕ)
            → IsDurable empty_doc t.rows (
                perform_all U.import_update profile
                  (restarted profile empty_doc w)
                  (stopped_after k (writes deltas))))
  sync_survives empty_doc t w fuel owner sorted readable a h =
      let ds = view plain (rows_after profile (resume_seq profile w) t.rows) in
      (
        ds,
        pull_complete decode encode decrypt plain t profile owner sorted readable
            (resume_seq profile w) fuel h,
        synced-IsWhole empty_doc t.rows w a ds refl,
        λ k. stopped-IsDurable empty_doc t.rows w a ds k refl,
      )
