-- ===== src/Tests/Stream.antt =====
-- The theorem on the event stream at two events that the network cuts at odd places.
use vaultmarks.Shared.{ℕ, Option, some, List, [], ◌∷◌, length, ◌≡◌, refl}
use vaultmarks.Sync.Events.{read_chunk, read_chunks}
use vaultmarks.Sync.Events.Chunks.{joined, chunks_alike}
use vaultmarks.Sync.Events.Delivery.{stream_delivers}

-- The id of a body is its length.
abbrev parse : List ℕ → Option ℕ
parse t = some (length t)

abbrev bodies : List (List ℕ × ℕ)
bodies = (b'7' ∷ [], 1) ∷ (b'4' ∷ b'2' ∷ [], 2) ∷ []

-- The first cut is between the two characters of a blank line, the second within "data: ".
abbrev chunks : List (List ℕ)
chunks =
    (b'd' ∷ b'a' ∷ b't' ∷ b'a' ∷ b':' ∷ 32 ∷ b'7' ∷ 10 ∷ [])
    ∷ (10 ∷ b'd' ∷ b'a' ∷ b't' ∷ [])
    ∷ []
    ∷ (b'a' ∷ b':' ∷ 32 ∷ b'4' ∷ b'2' ∷ 10 ∷ 10 ∷ [])
    ∷ []

stream_delivers_example : read_chunks parse [] chunks ≡ (1 ∷ 2 ∷ [], [])
stream_delivers_example =
    stream_delivers parse bodies chunks (((refl, tt), refl), (((refl, (refl, tt)), refl), tt)) refl

chunks_alike_example : read_chunks parse [] chunks ≡ read_chunk parse [] (joined chunks)
chunks_alike_example = chunks_alike parse chunks
