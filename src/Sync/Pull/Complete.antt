-- ===== src/Sync/Pull/Complete.antt =====
-- What `pullSince` of extension/src/sync/client.ts returns against the server's table.
use mathlib.Core.List.{append_assoc}
use vaultmarks.Shared.{
  ℕ, zero, suc, ◌+◌, ◌≤◌, ◌<◌, String, true, false, Option, some, List, [], ◌∷◌, ◌++◌, ◌==◌, ◌≡◌,
  ◌≢◌, refl, arith, ltb, length, contains, All, inl, inr, Bool-cases, ◌⊎◌, sym, ◌∙◌, ap,
}
use vaultmarks.Sync.Server.{
  Delta, Table, is_after, PullReply, page, page_limit, rows_after, take_rows, fetch_deltas_since,
  entries_of, pull,
}
use vaultmarks.Sync.Pull.{Pulled, ok, RawDelta, last_seq, decrypt_page, pull_pages}

-- The rows stand in the order of their sequence ids.
abbrev pub IsSorted : List Delta → Type 0
IsSorted [] = Unit
IsSorted (d ∷ ds) = All (λ e. d.sequence_id < e.sequence_id) ds × IsSorted ds

drop_rows : ℕ → List Delta → List Delta
drop_rows zero ds = ds
drop_rows (suc n) [] = []
drop_rows (suc n) (d ∷ ds) = drop_rows n ds

take-drop : (n : ℕ) (ds : List Delta) → take_rows n ds ++ drop_rows n ds ≡ ds
unfolding take_rows drop_rows
take-drop zero ds = refl
take-drop (suc n) [] = refl
take-drop (suc n) (d ∷ ds) = ap (◌∷◌ d) (take-drop n ds)

take-take : (n : ℕ) (ds : List Delta) → take_rows n (take_rows (suc n) ds) ≡ take_rows n ds
unfolding take_rows
take-take zero ds = refl
take-take (suc n) [] = refl
take-take (suc n) (d ∷ ds) = ap (◌∷◌ d) (take-take n ds)

take_all : (n : ℕ) (ds : List Delta) → length ds ≤ n → take_rows n ds ≡ ds
unfolding take_rows
take_all zero [] h = refl
take_all zero (d ∷ ds) h = absurd (omega arith)
take_all (suc n) [] h = refl
take_all (suc n) (d ∷ ds) h = ap (◌∷◌ d) (take_all n ds (omega arith))

more_iff :
    (n : ℕ) (ds : List Delta)
    → ((ltb n (length (take_rows (suc n) ds)) ≡ true) × (n < length ds))
      ⊎ ((ltb n (length (take_rows (suc n) ds)) ≡ false) × (length ds ≤ n))
unfolding take_rows
more_iff zero [] = ground arith
more_iff zero (d ∷ ds) = ground arith
more_iff (suc n) [] = ground arith
more_iff (suc n) (d ∷ ds) = ground (arith, more_iff n ds)

length-drop : (n : ℕ) (ds : List Delta) → n < length ds → length (drop_rows n ds) + n ≡ length ds
unfolding drop_rows
length-drop zero ds h = omega arith
length-drop (suc n) [] h = absurd (omega arith)
length-drop (suc n) (d ∷ ds) h = omega (arith, length-drop n ds (omega arith))

-- The cursor after a page.
abbrev cursor_after : ℕ → List Delta → ℕ
cursor_after c [] = c
cursor_after c (d ∷ ds) = cursor_after d.sequence_id ds

module _ (profile : String) where
  abbrev IsAbove : ℕ → List Delta → Type 0
  IsAbove c ds = All (λ e. ((e.profile_id == profile) ≡ true) × (c < e.sequence_id)) ds

  IsAbove-le : (b c : ℕ) (ds : List Delta) → b ≤ c → IsAbove c ds → IsAbove b ds
  IsAbove-le b c [] h a = tt
  IsAbove-le b c (d ∷ ds) h a = ((a.0.0, omega arith), IsAbove-le b c ds h a.1)

  rows_after-IsAbove : (c : ℕ) (ds : List Delta) → IsAbove c (rows_after profile c ds)
  unfolding rows_after
  rows_after-IsAbove c [] = tt
  rows_after-IsAbove c (d ∷ ds) = ground (arith, rows_after-IsAbove c ds)

  All-rows_after :
      (s c : ℕ) (ds : List Delta)
      → All (λ e. s < e.sequence_id) ds
      → All (λ e. s < e.sequence_id) (rows_after profile c ds)
  unfolding rows_after
  All-rows_after s c [] a = tt
  All-rows_after s c (d ∷ ds) a = ground (arith, All-rows_after s c ds a.1, a.0)

  rows_after-IsSorted : (c : ℕ) (ds : List Delta) → IsSorted ds → IsSorted (rows_after profile c ds)
  unfolding rows_after
  rows_after-IsSorted c [] s = tt
  rows_after-IsSorted c (d ∷ ds) s =
      ground (arith, rows_after-IsSorted c ds s.1, All-rows_after d.sequence_id c ds s.0)

  -- Asking again with a later cursor is asking the first answer.
  rows_after-rows_after :
      (b c : ℕ) (ds : List Delta)
      → b ≤ c
      → rows_after profile c (rows_after profile b ds) ≡ rows_after profile c ds
  unfolding rows_after
  rows_after-rows_after b c [] h = refl
  rows_after-rows_after b c (d ∷ ds) h = ground (arith, rows_after-rows_after b c ds h)

  rows_after_all : (c : ℕ) (ds : List Delta) → IsAbove c ds → rows_after profile c ds ≡ ds
  unfolding rows_after
  rows_after_all c [] a = refl
  rows_after_all c (d ∷ ds) a = ground (arith, rows_after_all c ds a.1, a.0)

  IsAbove-tail :
      (c s : ℕ) (ds : List Delta) → IsAbove c ds → All (λ e. s < e.sequence_id) ds → IsAbove s ds
  IsAbove-tail c s [] a h = tt
  IsAbove-tail c s (d ∷ ds) a h = ((a.0.0, h.0), IsAbove-tail c s ds a.1 h.1)

  cursor_grows :
      (n c : ℕ) (ds : List Delta) → IsAbove c ds → IsSorted ds → c ≤ cursor_after c (take_rows n ds)
  unfolding take_rows
  cursor_grows zero c ds a s = omega arith
  cursor_grows (suc n) c [] a s = omega arith
  cursor_grows (suc n) c (d ∷ ds) a s =
      omega (
        arith,
        cursor_grows n d.sequence_id ds (IsAbove-tail c d.sequence_id ds a.1 s.0) s.1,
        a.0.1,
      )

  not_after :
      (c : ℕ) (d : Delta) (ds : List Delta)
      → d.sequence_id ≤ c
      → rows_after profile c (d ∷ ds) ≡ rows_after profile c ds
  unfolding rows_after
  not_after c d ds h = ground arith

  -- After a page the cursor leaves exactly the rest.
  rest_after :
      (n c : ℕ) (ds : List Delta)
      → IsSorted ds
      → IsAbove c ds
      → rows_after profile (cursor_after c (take_rows n ds)) ds ≡ drop_rows n ds
  unfolding take_rows drop_rows
  rest_after zero c ds s a = rows_after_all c ds a
  rest_after (suc n) c [] s a = unfold rows_after in refl
  rest_after (suc n) c (d ∷ ds) s a =
      let above = IsAbove-tail c d.sequence_id ds a.1 s.0 in
      not_after (cursor_after d.sequence_id (take_rows n ds)) d ds
        (cursor_grows n d.sequence_id ds above s.1)
      ∙ rest_after n d.sequence_id ds s.1 above

page_limit_pos : 0 < page_limit
unfolding page_limit
page_limit_pos = omega arith

module _ {P : Type 0} (decrypt : String → Option P) (fetch : ℕ → PullReply) where
  final_page :
      (fuel c : ℕ) (result xs : List (RawDelta P)) {entries : List (ℕ × String)}
      → fetch c ≡ page entries false
      → decrypt_page decrypt entries ≡ some xs
      → pull_pages decrypt fetch (suc fuel) c result ≡ some (ok (result ++ xs))
  unfolding pull_pages
  final_page fuel c result [] f d = rw (f, pull_pages, d)
  final_page fuel c result (x ∷ xs) f d = rw (f, pull_pages, d)

  inner_page :
      (fuel c : ℕ) (result xs : List (RawDelta P)) {entries : List (ℕ × String)}
      → fetch c ≡ page entries true
      → decrypt_page decrypt entries ≡ some xs
      → xs ≢ []
      → pull_pages decrypt fetch (suc fuel) c result
        ≡ pull_pages decrypt fetch fuel (last_seq c xs) (result ++ xs)
  unfolding pull_pages
  inner_page fuel c result [] f d n = absurd (n refl)
  inner_page fuel c result (x ∷ xs) f d n = rw (f, pull_pages, d)

-- The deltas as the client sees them.
unfoldable pub view : {P : Type 0} → (Delta → P) → List Delta → List (RawDelta P)
view plain [] = []
view plain (d ∷ ds) = (d.sequence_id, plain d) ∷ view plain ds

module _ {P : Type 0} (decode : String → Option String) (encode : String → String)
    (decrypt : String → Option P) (plain : Delta → P) where
  -- The client can decrypt each of the rows that belong to a profile.
  abbrev pub IsReadable : String → List Delta → Type 0
  IsReadable profile ds =
      All (λ d. (d.profile_id == profile) ≡ true → decrypt (encode d.payload) ≡ some (plain d)) ds

  view-append : (ds es : List Delta) → view plain (ds ++ es) ≡ view plain ds ++ view plain es
  unfolding view
  view-append [] es = refl
  view-append (d ∷ ds) es = ap (◌∷◌ (d.sequence_id, plain d)) (view-append ds es)

  abbrev IsPlain : List Delta → Type 0
  IsPlain ds = All (λ d. decrypt (encode d.payload) ≡ some (plain d)) ds

  rows_after-IsPlain :
      (profile : String) (c : ℕ) (ds : List Delta)
      → IsReadable profile ds
      → IsPlain (rows_after profile c ds)
  unfolding rows_after
  rows_after-IsPlain profile c [] a = tt
  rows_after-IsPlain profile c (d ∷ ds) a = elim (Bool-cases (is_after profile c d)) [
    | inl e ↦ rw e (a.0 (ground (arith, e)), rows_after-IsPlain profile c ds a.1)
    | inr e ↦ rw e (rows_after-IsPlain profile c ds a.1)
  ]

  take_rows-IsPlain : (n : ℕ) (ds : List Delta) → IsPlain ds → IsPlain (take_rows n ds)
  unfolding take_rows
  take_rows-IsPlain zero ds a = tt
  take_rows-IsPlain (suc n) [] a = tt
  take_rows-IsPlain (suc n) (d ∷ ds) a = (a.0, take_rows-IsPlain n ds a.1)

  decrypt-entries :
      (ds : List Delta)
      → IsPlain ds
      → decrypt_page decrypt (entries_of decode encode ds) ≡ some (view plain ds)
  unfolding decrypt_page entries_of view
  decrypt-entries [] a = refl
  decrypt-entries (d ∷ ds) a = rw (a.0, decrypt-entries ds a.1) refl

  last_seq-view : (c : ℕ) (ds : List Delta) → last_seq c (view plain ds) ≡ cursor_after c ds
  unfolding last_seq view
  last_seq-view c [] = refl
  last_seq-view c (d ∷ ds) = last_seq-view d.sequence_id ds

  nonempty : (n : ℕ) (ds : List Delta) → 0 < n → n < length ds → view plain (take_rows n ds) ≢ []
  unfolding view take_rows
  nonempty zero ds h k = λ e. absurd (omega arith)
  nonempty (suc n) [] h k = λ e. absurd (omega arith)
  nonempty (suc n) (d ∷ ds) h k = λ e. cc

  module _ (t : Table) (profile : String) (owner : contains t.owned profile ≡ true)
      (sorted : IsSorted t.rows) (readable : IsReadable profile t.rows) where
    abbrev matching : ℕ → List Delta
    matching c = rows_after profile c t.rows

    page-IsPlain : (c : ℕ) → IsPlain (take_rows page_limit (matching c))
    page-IsPlain c =
        take_rows-IsPlain page_limit (matching c) (rows_after-IsPlain profile c t.rows readable)

    reply :
        (c : ℕ)
        → pull decode encode t profile c
          ≡ page
              (entries_of decode encode (take_rows page_limit (matching c)))
              (ltb page_limit (length (take_rows (suc page_limit) (matching c))))
    unfolding pull fetch_deltas_since
    reply c = rw owner (
        ap
          (λ ds.
            page (entries_of decode encode ds)
              (ltb page_limit (length (take_rows (suc page_limit) (matching c)))))
          (take-take page_limit (matching c)))

    loop : ℕ → ℕ → List (RawDelta P) → Option (Pulled (List (RawDelta P)))
    loop = pull_pages decrypt (pull decode encode t profile)

    -- One round of the loop, by whether the matching rows fit in a page.
    last_round :
        (fuel c : ℕ) (result : List (RawDelta P))
        → length (matching c) ≤ page_limit
        → ltb page_limit (length (take_rows (suc page_limit) (matching c))) ≡ false
        → loop (suc fuel) c result ≡ some (ok (result ++ view plain (matching c)))
    unfolding loop
    last_round fuel c result fits done =
        final_page decrypt (pull decode encode t profile) fuel c result (view plain (matching c))
          (reply c ∙ ap (page (entries_of decode encode (take_rows page_limit (matching c)))) done)
          (decrypt-entries (take_rows page_limit (matching c)) (page-IsPlain c)
            ∙ ap (λ ds. some (view plain ds)) (take_all page_limit (matching c) fits))

    next_round :
        (fuel c : ℕ) (result : List (RawDelta P))
        → page_limit < length (matching c)
        → ltb page_limit (length (take_rows (suc page_limit) (matching c))) ≡ true
        → loop (suc fuel) c result
          ≡ loop fuel
              (cursor_after c (take_rows page_limit (matching c)))
              (result ++ view plain (take_rows page_limit (matching c)))
    unfolding loop
    next_round fuel c result long more =
        inner_page decrypt (pull decode encode t profile) fuel c result
          (view plain (take_rows page_limit (matching c)))
          (reply c ∙ ap (page (entries_of decode encode (take_rows page_limit (matching c)))) more)
          (decrypt-entries (take_rows page_limit (matching c)) (page-IsPlain c))
          (nonempty page_limit (matching c) page_limit_pos long)
        ∙ ap
            (λ k.
              pull_pages decrypt (pull decode encode t profile) fuel k
                (result ++ view plain (take_rows page_limit (matching c))))
            (last_seq-view c (take_rows page_limit (matching c)))

    loop_complete :
        (fuel c : ℕ) (result : List (RawDelta P))
        → length (matching c) < fuel
        → loop fuel c result ≡ some (ok (result ++ view plain (matching c)))
    loop_complete zero c result h = absurd (omega arith)
    loop_complete (suc fuel) c result h = elim (more_iff page_limit (matching c)) [
      | inr (done, fits) ↦ last_round fuel c result fits done
      | inl (more, long) ↦
          let ds = matching c in
          let c' = cursor_after c (take_rows page_limit ds) in
          let above = rows_after-IsAbove profile c t.rows in
          let in_order = rows_after-IsSorted profile c t.rows sorted in
          let rest : matching c' ≡ drop_rows page_limit ds =
            sym (
              rows_after-rows_after profile c c' t.rows
                (cursor_grows profile page_limit c ds above in_order))
            ∙ rest_after profile page_limit c ds in_order above in
          let fewer : length (matching c') < fuel =
            rw rest (omega (arith, length-drop page_limit ds long, page_limit_pos)) in
          next_round fuel c result long more
          ∙ loop_complete fuel c' (result ++ view plain (take_rows page_limit ds)) fewer
          ∙ ap (λ x. some (ok x))
              (append_assoc result (view plain (take_rows page_limit ds)) (view plain (matching c'))
                ∙ ap (◌++◌ result) (
                    ap (λ x. view plain (take_rows page_limit ds) ++ view plain x) rest
                    ∙ sym (view-append (take_rows page_limit ds) (drop_rows page_limit ds))
                    ∙ ap (view plain) (take-drop page_limit ds)))
    ]

    -- Against the server's `pull`, for a profile of the user, rows in the order of their sequence
    -- ids, and a table whose rows of the profile the client can decrypt: `pullSince` ends within
    -- one round more than there are matching rows, without an error, and returns every delta of the
    -- profile after the given sequence id, once and in order, however many pages that takes.
    pub pull_complete :
        (since fuel : ℕ)
        → length (rows_after profile since t.rows) < fuel
        → pull_pages decrypt (pull decode encode t profile) fuel since []
          ≡ some (ok (view plain (rows_after profile since t.rows)))
    unfolding loop
    pull_complete since fuel h = loop_complete fuel since [] h
