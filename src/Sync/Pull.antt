-- ===== src/Sync/Pull.antt =====
-- `pullSince` of extension/src/sync/client.ts.
pub mod Complete
use vaultmarks.Shared.{ℕ, zero, suc, String, true, false, Option, none, some, List, [], ◌∷◌, ◌++◌}
use vaultmarks.Sync.Http.{ApiError, throw_if_not_ok}
use vaultmarks.Sync.Server.{PullReply, refused, page}

pub data Pulled (A : Type 0) : Type 0 where
  ok : A → Pulled A
  err : ApiError → Pulled A

-- `RawDelta` with a decrypted payload of type `P`.
abbrev pub RawDelta : Type 0 → Type 0
RawDelta P = ℕ × P

-- `page[page.length - 1].sequenceId`, or the cursor of an empty page.
unfoldable pub last_seq {ℓ} : {P : Type ℓ} → ℕ → List (ℕ × P) → ℕ
last_seq cursor [] = cursor
last_seq cursor ((seq, p) ∷ ds) = last_seq seq ds

module _ {P : Type 0} (decrypt : String → Option P) where
  -- The decryption of a page, which fails as a whole.
  unfoldable pub decrypt_page : List (ℕ × String) → Option (List (RawDelta P))
  decrypt_page [] = some []
  decrypt_page ((seq, blob) ∷ ds) = elim (decrypt blob) [
    | none ↦ none
    | some payload ↦ elim (decrypt_page ds) [
      | none ↦ none
      | some rest ↦ some ((seq, payload) ∷ rest)
    ]
  ]

  module _ (fetch : ℕ → PullReply) where
    -- The loop over the pages; `none` means that the fuel ran out.
    unfoldable pub pull_pages : ℕ → ℕ → List (RawDelta P) → Option (Pulled (List (RawDelta P)))
    pull_pages zero cursor result = none
    pull_pages (suc fuel) cursor result = elim (fetch cursor) [
      | refused status ↦
          some (err (elim (throw_if_not_ok status) [ none ↦ ApiError.bad_payload | some e ↦ e ]))
      | page entries has_more ↦ elim (decrypt_page entries) [
        | none ↦ some (err ApiError.bad_payload)
        | some [] ↦ some (ok (result ++ []))
        | some (d ∷ ds) ↦ elim has_more [
          | true ↦ pull_pages fuel (last_seq cursor (d ∷ ds)) (result ++ d ∷ ds)
          | false ↦ some (ok (result ++ d ∷ ds))
        ]
      ]
    ]
