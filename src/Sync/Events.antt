-- ===== src/Sync/Events.antt =====
-- The text of the event stream, `openEventStream` of extension/src/sync/client.ts: chunks of text are
-- cut into events at blank lines, and each line of data gives a sequence id. A text is the list of
-- its characters' codes.
pub mod Chunks
pub mod Delivery
use vaultmarks.Shared.{
  ℕ, zero, suc, ◌+◌, Option, none, some, List, [], ◌∷◌, ◌++◌, nat_beq, if◌then◌else◌, length,
}

-- The text after a prefix (`startsWith` with `slice`).
unfoldable pub strip : List ℕ → List ℕ → Option (List ℕ)
strip [] t = some t
strip (s ∷ ss) [] = none
strip (s ∷ ss) (c ∷ cs) = let rest = strip ss cs in if nat_beq s c then rest else none

-- A text before and after the first separator in it.
unfoldable pub cut : List ℕ → List ℕ → Option (List ℕ × List ℕ)
unfolding strip
cut sep [] = none
cut sep (c ∷ cs) =
    let later = cut sep cs in
    elim (strip sep (c ∷ cs)) [
      | some r ↦ some ([], r)
      | none ↦ elim later [ none ↦ none | some (a, r) ↦ some (c ∷ a, r) ]
    ]

-- `split` and `pop`: the parts but the last, and the last.
unfoldable pub parts : ℕ → List ℕ → List ℕ → List (List ℕ) × List ℕ
unfolding cut
parts zero sep t = ([], t)
parts (suc fuel) sep t = elim (cut sep t) [
  | none ↦ ([], t)
  | some (a, r) ↦ let (ps, last) = parts fuel sep r in (a ∷ ps, last)
]

unfoldable pub split_last : List ℕ → List ℕ → List (List ℕ) × List ℕ
unfolding parts
split_last sep t = parts (length t) sep t

abbrev pub newline : List ℕ
newline = 10 ∷ []

abbrev pub blank_line : List ℕ
blank_line = 10 ∷ 10 ∷ []

-- "data: "
abbrev pub data_prefix : List ℕ
data_prefix = b'd' ∷ b'a' ∷ b't' ∷ b'a' ∷ b':' ∷ 32 ∷ []

-- `parse` is `JSON.parse` with the field `sequence_id`, and `none` where it throws.
module _ (parse : List ℕ → Option ℕ) where
  unfoldable pub seqs_of_line : List ℕ → List ℕ
  unfolding strip
  seqs_of_line line = elim (strip data_prefix line) [
    | none ↦ []
    | some text ↦ elim (parse text) [ none ↦ [] | some seq ↦ seq ∷ [] ]
  ]

  unfoldable pub seqs_of_lines : List (List ℕ) → List ℕ
  seqs_of_lines [] = []
  seqs_of_lines (l ∷ ls) = seqs_of_line l ++ seqs_of_lines ls

  unfoldable pub seqs_of_event : List ℕ → List ℕ
  unfolding split_last
  seqs_of_event event = let (ls, last) = split_last newline event in seqs_of_lines (ls ++ last ∷ [])

  unfoldable pub seqs_of_events : List (List ℕ) → List ℕ
  seqs_of_events [] = []
  seqs_of_events (e ∷ es) = seqs_of_event e ++ seqs_of_events es

  -- What `onNewSeq` is called with for a chunk, and the buffer after it.
  unfoldable pub read_chunk : List ℕ → List ℕ → List ℕ × List ℕ
  unfolding split_last
  read_chunk buffer chunk =
      let (events, rest) = split_last blank_line (buffer ++ chunk) in (seqs_of_events events, rest)

  unfoldable pub read_chunks : List ℕ → List (List ℕ) → List ℕ × List ℕ
  read_chunks buffer [] = ([], buffer)
  read_chunks buffer (c ∷ cs) =
      let (seqs, rest) = read_chunk buffer c in
      let (more, last) = read_chunks rest cs in (seqs ++ more, last)
