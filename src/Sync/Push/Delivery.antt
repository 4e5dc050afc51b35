-- ===== src/Sync/Push/Delivery.antt =====
-- What a drain of the queue takes off it and delivers: `_pushPendingInner` of
-- extension/src/sync/client.ts.
use mathlib.Core.List.{append_assoc, append-nil}
use vaultmarks.Shared.{
  ℕ, suc, ◌≤◌, ◌<◌, String, Bool, true, false, subst, arith, length, Option, none, some, List, [],
  ◌∷◌, ◌++◌, map, ◌==◌, ◌≡◌, ◌≢◌, refl, contains, All, Option-cases, inl, inr, ◌⊎◌, sym, ◌∙◌, ap,
}
use vaultmarks.Sync.Queue.{QueuedDelta, peek, dequeue}
use vaultmarks.Sync.Queue.Front.{
  take, drop, ids, HaveDistinctIds, peek-take, dequeue-take, take-front,
}
use vaultmarks.Sync.Http.{ApiError}
use vaultmarks.Sync.Server.{Delta, Table}
use vaultmarks.Sync.Server
use vaultmarks.Sync.Push.{
  Verdict, Outcome, stopped, thrown, verdict, push_items, settle, drain, push_pending_inner,
}

dequeue-nil : (q : List QueuedDelta) → dequeue [] q ≡ q
unfolding dequeue contains
dequeue-nil [] = refl
dequeue-nil (d ∷ q) = ap (◌∷◌ d) (dequeue-nil q)

module _ {S : Type 0} (send : S → QueuedDelta → Option ℕ × S) (active : String) where
  -- A success, or a status for which the code gives a delta up: 400, 404, and 403 where the delta's
  -- profile is not the active one.
  abbrev pub IsFinal : QueuedDelta → ℕ → Type 0
  IsFinal d status =
      ((200 ≤ status) × (status < 300))
      ⊎ (status ≡ 400)
      ⊎ (status ≡ 404)
      ⊎ ((status ≡ 403) × ((d.profile_id == active) ≡ false))

  -- Sent one after another, from a state of the server, the deltas get final answers, and lead to a
  -- state of which `P` holds.
  abbrev pub AreAnswered : S → List QueuedDelta → (S → Type 0) → Type 0
  AreAnswered s [] P = P s
  AreAnswered s (d ∷ ds) P =
      ((status : ℕ) × ((send s d).0 ≡ some status) × IsFinal d status)
      × AreAnswered (send s d).1 ds P

  -- Nothing is left, or the next delta gets a status that is not final, and no 403.
  abbrev pub IsHeldUp : List QueuedDelta → S → Type 0
  IsHeldUp [] s = Unit
  IsHeldUp (d ∷ rest) s =
      (status : ℕ) × ((send s d).0 ≡ some status) × (¬ IsFinal d status) × (status ≢ 403)

  -- The next delta gets no answer, or a 403 for the active profile.
  abbrev pub IsRefused : List QueuedDelta → S → Type 0
  IsRefused [] s = ⊥
  IsRefused (d ∷ rest) s =
      ((send s d).0 ≡ none) ⊎ (((send s d).0 ≡ some 403) × ((d.profile_id == active) ≡ true))

  Verdict-cases :
      (v : Verdict)
      → (v ≡ Verdict.accepted)
        ⊎ ((v ≡ Verdict.discarded) ⊎ ((v ≡ Verdict.revoked) ⊎ (v ≡ Verdict.retry)))
  Verdict-cases Verdict.accepted = inl refl
  Verdict-cases Verdict.discarded = inr (inl refl)
  Verdict-cases Verdict.revoked = inr (inr (inl refl))
  Verdict-cases Verdict.retry = inr (inr (inr refl))

  accepted-IsFinal :
      (d : QueuedDelta) (status : ℕ)
      → verdict status (d.profile_id == active) ≡ Verdict.accepted
      → IsFinal d status
  unfolding verdict
  accepted-IsFinal d status h = ground (arith, h)

  discarded-IsFinal :
      (d : QueuedDelta) (status : ℕ)
      → verdict status (d.profile_id == active) ≡ Verdict.discarded
      → IsFinal d status
  unfolding verdict
  discarded-IsFinal d status h = ground (arith, h)

  retry-IsHeldUp :
      (s : S) (d : QueuedDelta) (ds : List QueuedDelta) (status : ℕ)
      → (send s d).0 ≡ some status
      → verdict status (d.profile_id == active) ≡ Verdict.retry
      → IsHeldUp (d ∷ ds) s
  unfolding verdict
  retry-IsHeldUp s d ds status e h =
      (status, e, (λ f. absurd (ground (arith, h, f))), (λ f. absurd (ground (arith, h, f))))

  revoked-IsRefused :
      (s : S) (d : QueuedDelta) (ds : List QueuedDelta) (status : ℕ)
      → (send s d).0 ≡ some status
      → verdict status (d.profile_id == active) ≡ Verdict.revoked
      → IsRefused (d ∷ ds) s
  unfolding verdict
  revoked-IsRefused s d ds status e h = inr (e ∙ ap some (ground (arith, h)), ground (arith, h))

  -- What a loop has settled of its deltas when it stops or throws.
  abbrev Settled : S → List String → List QueuedDelta → Outcome → Type 0
  Settled s acc ds (stopped succeeded) =
      (settled : List QueuedDelta) × (rest : List QueuedDelta) × (ds ≡ settled ++ rest)
      × AreAnswered s settled (IsHeldUp rest)
      × (succeeded ≡ acc ++ ids settled)
  Settled s acc ds (thrown e) =
      (settled : List QueuedDelta) × (rest : List QueuedDelta) × (ds ≡ settled ++ rest)
      × AreAnswered s settled (IsRefused rest)

  cons-Settled :
      (s : S) (acc : List String) (d : QueuedDelta) (ds : List QueuedDelta) (status : ℕ)
      → (send s d).0 ≡ some status
      → IsFinal d status
      → (o : Outcome) → Settled (send s d).1 (acc ++ d.id ∷ []) ds o
      → Settled s acc (d ∷ ds) o
  cons-Settled s acc d ds status e v (stopped succeeded) (settled, rest, p, a, q) = (
    d ∷ settled,
    rest,
    ap (◌∷◌ d) p,
    ((status, e, v), a),
    q ∙ append_assoc acc (d.id ∷ []) (ids settled),
  )
  cons-Settled s acc d ds status e v (thrown x) (settled, rest, p, a) =
      (d ∷ settled, rest, ap (◌∷◌ d) p, ((status, e, v), a))

  push_items-Settled :
      (s : S) (acc : List String) (ds : List QueuedDelta)
      → Settled s acc ds (push_items send active s acc ds).0
  unfolding push_items
  push_items-Settled s acc [] = ([], [], refl, tt, sym (append-nil acc))
  push_items-Settled s acc (d ∷ ds) = elim (Option-cases (send s d).0) [
    | inl e ↦ rw (e, push_items) ([], d ∷ ds, refl, inl e)
    | inr (status, e) ↦
        let next = push_items-Settled (send s d).1 (acc ++ d.id ∷ []) ds in
        elim (Verdict-cases (verdict status (d.profile_id == active))) [
          | inl v ↦
              rw (e, push_items, v)
                (cons-Settled s acc d ds status e (accepted-IsFinal d status v) _ next)
          | inr (inl v) ↦
              rw (e, push_items, v)
                (cons-Settled s acc d ds status e (discarded-IsFinal d status v) _ next)
          | inr (inr (inl v)) ↦
              rw (e, push_items, v) ([], d ∷ ds, refl, revoked-IsRefused s d ds status e v)
          | inr (inr (inr v)) ↦
              rw (e, push_items, v)
                ([], d ∷ ds, refl, retry-IsHeldUp s d ds status e v, sym (append-nil acc))
        ]
  ]

  -- One round of the loop at an accepted item.
  push_items_accept :
      (s : S) (acc : List String) (d : QueuedDelta) (ds : List QueuedDelta) {status : ℕ}
      → (send s d).0 ≡ some status
      → verdict status (d.profile_id == active) ≡ Verdict.accepted
      → push_items send active s acc (d ∷ ds)
        ≡ push_items send active (send s d).1 (acc ++ d.id ∷ []) ds
  unfolding push_items
  push_items_accept s acc d ds e v = rw (e, push_items, v)

  -- The queue without the deltas that were answered until one was held up, or as it was where one
  -- was refused and an error is thrown.
  abbrev pub IsAnswered : S → List QueuedDelta → List QueuedDelta × Option ApiError → Type 0
  IsAnswered s q (left, thrown_error) =
      ((settled : List QueuedDelta) × (rest : List QueuedDelta) × (thrown_error ≡ none)
        × (take 50 q ≡ settled ++ rest)
        × AreAnswered s settled (IsHeldUp rest)
        × (left ≡ drop (length settled) q))
      ⊎ ((settled : List QueuedDelta) × (rest : List QueuedDelta) × (thrown_error ≢ none)
          × (take 50 q ≡ settled ++ rest)
          × AreAnswered s settled (IsRefused rest)
          × (left ≡ q))

  settle-IsAnswered :
      (s : S) (q : List QueuedDelta)
      → HaveDistinctIds q
      → (o : Outcome) → Settled s [] (take 50 q) o
      → IsAnswered s q (settle q o)
  unfolding settle
  settle-IsAnswered s q d (stopped succeeded) (settled, rest, p, a, e) =
      let front = take-front 50 q settled rest p in
      inl (
        settled,
        rest,
        refl,
        p,
        a,
        ap (λ x. dequeue x q) (e ∙ ap ids front) ∙ dequeue-take (length settled) q d,
      )
  settle-IsAnswered s q d (thrown e) (settled, rest, p, a) =
      inr (settled, rest, (λ n. absurd (ground (arith, n))), p, a, refl)

  drain-IsAnswered :
      (s : S) (q batch : List QueuedDelta)
      → HaveDistinctIds q
      → batch ≡ take 50 q
      → IsAnswered s q (drain send active s q batch).0
  unfolding drain
  drain-IsAnswered s q [] d e = inl ([], [], refl, sym e, tt, refl)
  drain-IsAnswered s q (x ∷ xs) d e =
      settle-IsAnswered s q d (push_items send active s [] (x ∷ xs)).0 (
        subst (λ b. Settled s [] b (push_items send active s [] (x ∷ xs)).0) e
          (push_items-Settled s [] (x ∷ xs)))

  -- For any server, and a queue with one delta for each id: `_pushPendingInner` throws nothing and
  -- takes exactly those deltas off the front of the queue, at most 50, which the server, when they
  -- were sent to it one after another, has answered with a success or with a status for which the
  -- code gives a delta up, until the batch ended or one got another status; or one got no answer or
  -- a 403 for the active profile, and it throws an error and leaves the queue as it was.
  pub push_pending_inner-IsAnswered :
      (s : S) (q : List QueuedDelta)
      → HaveDistinctIds q
      → IsAnswered s q (push_pending_inner send active s q).0
  unfolding push_pending_inner
  push_pending_inner-IsAnswered s q d = drain-IsAnswered s q (peek 50 q) d (peek-take 50 q)

-- The server's `push` as an answer to an item.
abbrev pub send_to :
    (String → Option String) → (String → String) → Table → QueuedDelta → Option ℕ × Table
send_to decode encode t d = (
  some (Server.push decode encode t d.profile_id d.encrypted_delta).0,
  (Server.push decode encode t d.profile_id d.encrypted_delta).1,
)

module _ (decode : String → Option String) (encode : String → String) (bytes : QueuedDelta → String)
    (active : String) where
  -- The item's profile is the user's, and its payload is valid base64.
  abbrev pub IsDeliverable : Table → QueuedDelta → Type 0
  IsDeliverable t d =
      (contains t.owned d.profile_id ≡ true) × (decode d.encrypted_delta ≡ some (bytes d))

  -- The rows that the items become, numbered on.
  abbrev pub new_rows : ℕ → List QueuedDelta → List Delta
  new_rows n [] = []
  new_rows n (d ∷ ds) =
      record { sequence_id = n; profile_id = d.profile_id; payload = bytes d } ∷ new_rows (suc n) ds

  abbrev pub next_after : ℕ → List QueuedDelta → ℕ
  next_after n [] = n
  next_after n (d ∷ ds) = next_after (suc n) ds

  abbrev pub delivered : Table → List QueuedDelta → Table
  delivered t ds = record t {
    rows = t.rows ++ new_rows t.next_seq ds;
    next_seq = next_after t.next_seq ds;
  }

  push_one :
      (t : Table) (d : QueuedDelta)
      → IsDeliverable t d
      → Server.push decode encode t d.profile_id d.encrypted_delta ≡ (200, delivered t (d ∷ []))
  unfolding Server.push
  push_one t d (o, v) = rw (o, v)

  accepted_200 : (b : Bool) → verdict 200 b ≡ Verdict.accepted
  unfolding verdict
  accepted_200 b = refl

  delivered-nil : (t : Table) → delivered t [] ≡ t
  delivered-nil t = λ i. record t { rows = append-nil t.rows i }

  delivered-cons :
      (t : Table) (d : QueuedDelta) (ds : List QueuedDelta)
      → delivered (delivered t (d ∷ [])) ds ≡ delivered t (d ∷ ds)
  delivered-cons t d ds = λ i. record {
    rows = append_assoc t.rows (new_rows t.next_seq (d ∷ [])) (new_rows (suc t.next_seq) ds) i;
    next_seq = next_after (suc t.next_seq) ds;
    owned = t.owned;
  }

  push_items_deliver :
      (t : Table) (acc : List String) (ds : List QueuedDelta)
      → All (IsDeliverable t) ds
      → push_items (send_to decode encode) active t acc ds
        ≡ (stopped (acc ++ map (λ d. d.id) ds), delivered t ds)
  unfolding push_items
  push_items_deliver t acc [] a = λ i. (stopped (sym (append-nil acc) i), sym (delivered-nil t) i)
  push_items_deliver t acc (d ∷ ds) a =
      let one = push_one t d a.0 in
      let t' = delivered t (d ∷ []) in
      push_items_accept (send_to decode encode) active t acc d ds {status = 200}
        (ap (λ x. some x.0) one) (accepted_200 (d.profile_id == active))
      ∙ ap (λ x. push_items (send_to decode encode) active x.1 (acc ++ d.id ∷ []) ds) one
      ∙ push_items_deliver t' (acc ++ d.id ∷ []) ds a.1
      ∙ (λ i.
          (stopped (append_assoc acc (d.id ∷ []) (map (λ e. e.id) ds) i), delivered-cons t d ds i))

  drain_delivers :
      (t : Table) (q batch : List QueuedDelta)
      → All (IsDeliverable t) batch
      → drain (send_to decode encode) active t q batch
        ≡ ((dequeue (map (λ d. d.id) batch) q, none), delivered t batch)
  unfolding drain settle
  drain_delivers t q [] a = λ i. ((sym (dequeue-nil q) i, none), sym (delivered-nil t) i)
  drain_delivers t q (d ∷ ds) a = rw (push_items_deliver t [] (d ∷ ds) a)

  -- Against the server's `push`, for a queue with one delta for each id, where each of the first 50
  -- belongs to a profile of the user and is valid base64: a drain throws nothing, leaves the queue
  -- without its first 50 deltas, and appends these to the server's rows in the order of the queue.
  pub push_delivers :
      (t : Table) (q : List QueuedDelta)
      → HaveDistinctIds q
      → All (IsDeliverable t) (take 50 q)
      → push_pending_inner (send_to decode encode) active t q
        ≡ ((drop 50 q, none), delivered t (take 50 q))
  unfolding push_pending_inner
  push_delivers t q d a =
      ap (drain (send_to decode encode) active t q) (peek-take 50 q)
      ∙ drain_delivers t q (take 50 q) a
      ∙ ap (λ x. ((x, none), delivered t (take 50 q))) (dequeue-take 50 q d)
