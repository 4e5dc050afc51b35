-- ===== src/Sync/Server.antt =====
-- The server's `push` and `pull` (server/src/routes/sync.rs) over the table of deltas
-- (server/src/db/queries.rs), for a user who passed the authentication.
use vaultmarks.Shared.{
  ℕ, zero, suc, String, Bool, Option, none, some, List, [], ◌∷◌, ◌++◌, ◌==◌, ◌&&◌, if◌then◌else◌,
  ltb, length, contains,
}

pub record Delta : Type 0 where
  pub sequence_id : ℕ
  pub profile_id : String
  pub payload : String

-- The rows in the order of their serial primary key, the next value of the serial, and the
-- profiles that belong to the user.
pub record Table : Type 0 where
  pub rows : List Delta
  pub next_seq : ℕ
  pub owned : List String

-- The number of rows that one page holds.
unfoldable pub page_limit : ℕ
page_limit = 500

abbrev pub is_after : String → ℕ → Delta → Bool
is_after profile since d = (d.profile_id == profile) && ltb since d.sequence_id

-- `WHERE profile_id = $1 AND sequence_id > $2 ORDER BY sequence_id ASC`
unfoldable pub rows_after : String → ℕ → List Delta → List Delta
rows_after profile since [] = []
rows_after profile since (d ∷ ds) =
    let rest = rows_after profile since ds in if is_after profile since d then d ∷ rest else rest

unfoldable pub take_rows : ℕ → List Delta → List Delta
take_rows zero ds = []
take_rows (suc n) [] = []
take_rows (suc n) (d ∷ ds) = d ∷ take_rows n ds

-- `LIMIT 501`, then `rows.truncate(500)`.
unfoldable pub fetch_deltas_since : Table → String → ℕ → List Delta × Bool
unfolding rows_after take_rows
fetch_deltas_since t profile since =
    let rows = take_rows (suc page_limit) (rows_after profile since t.rows) in
    (take_rows page_limit rows, ltb page_limit (length rows))

-- The answer of `pull`: a status other than 200, or a page.
pub data PullReply : Type 0 where
  refused : ℕ → PullReply
  page : List (ℕ × String) → Bool → PullReply

-- The base64 codec is a library's.
module _ (decode : String → Option String) (encode : String → String) where
  unfoldable pub entries_of : List Delta → List (ℕ × String)
  entries_of [] = []
  entries_of (d ∷ ds) = (d.sequence_id, encode d.payload) ∷ entries_of ds

  unfoldable pub pull : Table → String → ℕ → PullReply
  unfolding fetch_deltas_since entries_of
  pull t profile since =
      if contains t.owned profile
      then (let (deltas, has_more) = fetch_deltas_since t profile since in
          page (entries_of deltas) has_more)
      else refused 403

  -- The status, and the table afterwards.
  unfoldable pub push : Table → String → String → ℕ × Table
  push t profile encrypted_delta =
      if contains t.owned profile
      then (elim (decode encrypted_delta) [
        | none ↦ (400, t)
        | some bytes ↦ (
          200,
          record t {
            rows =
                t.rows
                ++ record { sequence_id = t.next_seq; profile_id = profile; payload = bytes } ∷ [];
            next_seq = suc t.next_seq;
          },
        )
      ])
      else (403, t)
