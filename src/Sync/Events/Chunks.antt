-- ===== src/Sync/Events/Chunks.antt =====
-- The chunks of the event stream, `openEventStream` of extension/src/sync/client.ts.
use mathlib.Core.List.{append-nil, append_assoc}
use vaultmarks.Shared.{
  ℕ, zero, suc, ◌+◌, ◌≤◌, ◌<◌, Option, none, some, List, [], ◌∷◌, ◌++◌, length, ◌≡◌, ◌∙◌, refl, sym,
  ap, arith, inl, inr, Option-cases,
}
use vaultmarks.Sync.Events.{
  strip, cut, parts, split_last, blank_line, seqs_of_event, seqs_of_events, read_chunk, read_chunks,
}

strip-length : (s t r : List ℕ) → strip s t ≡ some r → length s + length r ≡ length t
unfolding strip
strip-length [] t r h = ground (arith, h)
strip-length (s ∷ ss) [] r h = absurd (ground (arith, h))
strip-length (s ∷ ss) (c ∷ cs) r h = ground (arith, h, strip-length ss cs r)

strip-append : (s t r ys : List ℕ) → strip s t ≡ some r → strip s (t ++ ys) ≡ some (r ++ ys)
unfolding strip
strip-append [] t r ys h = ground (arith, h)
strip-append (s ∷ ss) [] r ys h = absurd (ground (arith, h))
strip-append (s ∷ ss) (c ∷ cs) r ys h = ground (arith, h, strip-append ss cs r ys)

strip-none : (s t ys : List ℕ) → length s ≤ length t → strip s t ≡ none → strip s (t ++ ys) ≡ none
unfolding strip
strip-none [] t ys l h = absurd (ground (arith, h))
strip-none (s ∷ ss) [] ys l h = absurd (omega arith)
strip-none (s ∷ ss) (c ∷ cs) ys l h = ground (arith, h, l, strip-none ss cs ys)

-- The part before the separator, the separator and the part after it make up the text.
cut-length :
    (sep t a r : List ℕ) → cut sep t ≡ some (a, r) → length a + length sep + length r ≡ length t
unfolding cut
cut-length sep [] a r h = absurd (ground (arith, h))
cut-length sep (c ∷ cs) a r h = elim (Option-cases (strip sep (c ∷ cs))) [
  | inr (x, e) ↦ ground (arith, h, e, strip-length sep (c ∷ cs) x e)
  | inl e ↦ elim (Option-cases (cut sep cs)) [
    | inl n ↦ absurd (ground (arith, h, e, n))
    | inr ((b, q), n) ↦ ground (arith, h, e, n, cut-length sep cs b q n)
  ]
]

-- A separator stays the first one when text is added.
cut-append :
    (sep t a r ys : List ℕ) → cut sep t ≡ some (a, r) → cut sep (t ++ ys) ≡ some (a, r ++ ys)
unfolding cut
cut-append sep [] a r ys h = absurd (ground (arith, h))
cut-append sep (c ∷ cs) a r ys h = elim (Option-cases (strip sep (c ∷ cs))) [
  | inr (x, e) ↦ ground (arith, h, e, strip-append sep (c ∷ cs) x ys e)
  | inl e ↦ elim (Option-cases (cut sep cs)) [
    | inl n ↦ absurd (ground (arith, h, e, n))
    | inr ((b, q), n) ↦
        let long = cut-length sep cs b q n in
        ground
          (arith, h, e, n, cut-append sep cs b q ys n, strip-none sep (c ∷ cs) ys (omega arith) e)
  ]
]

module _ (sep : List ℕ) (some_sep : 0 < length sep) where
  parts-enough :
      (f g : ℕ) (t : List ℕ) → length t ≤ f → length t ≤ g → parts f sep t ≡ parts g sep t
  unfolding parts cut
  parts-enough zero zero t h k = refl
  parts-enough zero (suc g) [] h k = refl
  parts-enough zero (suc g) (c ∷ cs) h k = absurd (omega arith)
  parts-enough (suc f) zero [] h k = refl
  parts-enough (suc f) zero (c ∷ cs) h k = absurd (omega arith)
  parts-enough (suc f) (suc g) t h k = elim (Option-cases (cut sep t)) [
    | inl e ↦ rw (e, parts) refl
    | inr ((a, r), e) ↦
        let shorter = cut-length sep t a r e in
        rw (e, parts, parts-enough f g r (omega arith) (omega arith)) refl
  ]

  pub split-none : (t : List ℕ) → cut sep t ≡ none → split_last sep t ≡ ([], t)
  unfolding split_last parts
  split-none [] h = refl
  split-none (c ∷ cs) h = rw (h, parts) refl

  pub split-some :
      (t a r : List ℕ)
      → cut sep t ≡ some (a, r)
      → split_last sep t ≡ (a ∷ (split_last sep r).0, (split_last sep r).1)
  unfolding split_last parts
  split-some [] a r h = absurd (let l = cut-length sep [] a r h in omega arith)
  split-some (c ∷ cs) a r h =
      let l = cut-length sep (c ∷ cs) a r h in
      rw (h, parts, parts-enough (length cs) (length r) r (omega arith) (omega arith)) refl

  -- Splitting what is left over with more text goes on where the first splitting ended.
  split-append :
      (n : ℕ) (t ys : List ℕ)
      → length t ≤ n
      → let (ps, rest) = split_last sep t in
        let (qs, last) = split_last sep (rest ++ ys) in split_last sep (t ++ ys) ≡ (ps ++ qs, last)
  split-append zero t ys h = elim (Option-cases (cut sep t)) [
    | inl e ↦ rw (split-none t e) refl
    | inr ((a, r), e) ↦ absurd (let l = cut-length sep t a r e in omega arith)
  ]
  split-append (suc n) t ys h = elim (Option-cases (cut sep t)) [
    | inl e ↦ rw (split-none t e) refl
    | inr ((a, r), e) ↦
        let l = cut-length sep t a r e in
        rw
          (
            split-some t a r e,
            split-some (t ++ ys) a (r ++ ys) (cut-append sep t a r ys e),
            split-append n r ys (omega arith),
          )
          refl
  ]

  split-rest : (n : ℕ) (t : List ℕ) → length t ≤ n → cut sep (split_last sep t).1 ≡ none
  split-rest zero t h = elim (Option-cases (cut sep t)) [
    | inl e ↦ rw (split-none t e) e
    | inr ((a, r), e) ↦ absurd (let l = cut-length sep t a r e in omega arith)
  ]
  split-rest (suc n) t h = elim (Option-cases (cut sep t)) [
    | inl e ↦ rw (split-none t e) e
    | inr ((a, r), e) ↦
        let l = cut-length sep t a r e in rw (split-some t a r e) (split-rest n r (omega arith))
  ]

abbrev pub joined : List (List ℕ) → List ℕ
joined [] = []
joined (c ∷ cs) = c ++ joined cs

module _ (parse : List ℕ → Option ℕ) where
  events-append :
      (ds es : List (List ℕ))
      → seqs_of_events parse (ds ++ es) ≡ seqs_of_events parse ds ++ seqs_of_events parse es
  unfolding seqs_of_events
  events-append [] es = refl
  events-append (d ∷ ds) es =
      ap (λ x. seqs_of_event parse d ++ x) (events-append ds es)
      ∙ sym
          (append_assoc (seqs_of_event parse d) (seqs_of_events parse ds) (seqs_of_events parse es))

  -- From a buffer without a blank line, chunks give what their text gives in one chunk.
  read_chunks-joined :
      (b : List ℕ) (cs : List (List ℕ))
      → cut blank_line b ≡ none
      → read_chunks parse b cs ≡ read_chunk parse b (joined cs)
  unfolding read_chunks read_chunk seqs_of_events
  read_chunks-joined b [] h = rw (append-nil b, split-none blank_line (omega arith) b h) refl
  read_chunks-joined b (c ∷ cs) h =
      let (ps, rest) = split_last blank_line (b ++ c) in
      let (qs, last) = split_last blank_line (rest ++ joined cs) in
      rw
        (
          read_chunks-joined rest cs
              (split-rest blank_line (omega arith) (length (b ++ c)) (b ++ c) (omega arith)),
          read_chunk,
          sym (append_assoc b c (joined cs)),
          split-append blank_line (omega arith) (length (b ++ c)) (b ++ c) (joined cs)
              (omega arith),
          events-append ps qs,
        )
        refl

  -- However the text of a stream is cut into chunks, the calls of `onNewSeq` are the same, in the
  -- same order, as for the whole text in one chunk, and so is what is left in the buffer.
  pub chunks_alike :
      (cs : List (List ℕ)) → read_chunks parse [] cs ≡ read_chunk parse [] (joined cs)
  unfolding cut
  chunks_alike cs = read_chunks-joined [] cs refl
