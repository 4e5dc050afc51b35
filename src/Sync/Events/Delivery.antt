-- ===== src/Sync/Events/Delivery.antt =====
-- The event stream with events as the server frames them (extension/src/sync/client.ts).
use vaultmarks.Shared.{
  ℕ, false, Option, none, some, List, [], ◌∷◌, ◌++◌, nat_beq, All, map, ◌≡◌, ◌∙◌, refl, arith,
}
use mathlib.Core.List.{append_assoc}
use vaultmarks.Sync.Events.{
  strip, cut, split_last, newline, blank_line, data_prefix, seqs_of_line, seqs_of_lines,
  seqs_of_event, seqs_of_events, read_chunk, read_chunks,
}
use vaultmarks.Sync.Events.Chunks.{split-none, split-some, joined, chunks_alike}

abbrev pub IsLine : List ℕ → Type 0
IsLine x = All (λ c. nat_beq 10 c ≡ false) x

-- A line of data and a blank line.
abbrev pub frame : List ℕ → List ℕ
frame body = data_prefix ++ (body ++ blank_line)

cut-frame : (x r : List ℕ) → IsLine x → cut blank_line (x ++ 10 ∷ 10 ∷ r) ≡ some (x, r)
unfolding cut strip
cut-frame [] r h = refl
cut-frame (c ∷ cs) r h = ground (arith, h.0, cut-frame cs r h.1)

cut-line : (x : List ℕ) → IsLine x → cut newline x ≡ none
unfolding cut strip
cut-line [] h = refl
cut-line (c ∷ cs) h = ground (arith, h.0, cut-line cs h.1)

module _ (parse : List ℕ → Option ℕ) where
  -- A body on one line, which parses to the sequence id.
  abbrev pub IsBody : List ℕ × ℕ → Type 0
  IsBody b = IsLine b.0 × (parse b.0 ≡ some b.1)

  abbrev pub framed : List (List ℕ × ℕ) → List ℕ
  framed [] = []
  framed (b ∷ bs) = frame b.0 ++ framed bs

  seqs-body : (b : List ℕ × ℕ) → IsBody b → seqs_of_event parse (data_prefix ++ b.0) ≡ b.1 ∷ []
  unfolding seqs_of_event seqs_of_lines seqs_of_line strip
  seqs-body b (h, p) =
      rw
        (
          split-none newline (omega arith) (data_prefix ++ b.0)
              (cut-line (data_prefix ++ b.0) (refl, (refl, (refl, (refl, (refl, (refl, h))))))),
          p,
        )
        refl

  read-framed :
      (bs : List (List ℕ × ℕ))
      → All IsBody bs
      → let (events, rest) = split_last blank_line (framed bs) in
        (seqs_of_events parse events ≡ map (λ b. b.1) bs) × (rest ≡ [])
  unfolding seqs_of_events cut
  read-framed [] h = rw (split-none blank_line (omega arith) [] refl) (refl, refl)
  read-framed (b ∷ bs) ((l, p), h) =
      let (seqs, rest) = read-framed bs h in
      let line : IsLine (data_prefix ++ b.0) = (refl, (refl, (refl, (refl, (refl, (refl, l)))))) in
      rw
        (
          append_assoc b.0 blank_line (framed bs),
          split-some blank_line (omega arith) (data_prefix ++ (b.0 ++ (blank_line ++ framed bs)))
              (data_prefix ++ b.0) (framed bs) (cut-frame (data_prefix ++ b.0) (framed bs) line),
          seqs_of_events,
          seqs-body b (l, p),
          seqs,
        )
        (refl, rest)

  -- For events whose data are JSON on one line with a sequence id, each followed by a blank line:
  -- however the network cuts their text into chunks, `onNewSeq` is called with every sequence id,
  -- once and in order, and nothing is left in the buffer.
  pub stream_delivers :
      (bs : List (List ℕ × ℕ)) (chunks : List (List ℕ))
      → All IsBody bs
      → joined chunks ≡ framed bs
      → read_chunks parse [] chunks ≡ (map (λ b. b.1) bs, [])
  unfolding read_chunk
  stream_delivers bs chunks h e =
      let (seqs, rest) = read-framed bs h in
      chunks_alike parse chunks ∙ rw (e, read_chunk, seqs, rest) refl
