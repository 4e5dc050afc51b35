-- ===== src/Shared/Dict.antt =====
-- A JavaScript `Map<string, V>` (and a record keyed by strings) as an association list in
-- insertion order: `set` overwrites in place, `delete` drops the key.
use Prim.Native.Nat.{◌≤◌, ◌<◌}
use Prim.Native.String.{String}
use mathlib.Core.Path.{◌≡◌, refl}
use mathlib.Core.Bool.{Bool}
use mathlib.Core.Option.{Option, none, some}
use mathlib.Core.List.{List, [], ◌∷◌, map}
use native.Mathlib.Omega.{arith}
use text.Mathlib.Text.{◌==◌}
use text.Mathlib.TextEquality.{eq_iff}
use vaultmarks.Shared.Tests.{if◌then◌else◌, is_some}
use vaultmarks.Shared.Lists.{length, All}

abbrev pub Dict {ℓ} : Type ℓ → Type ℓ
Dict V = List (String × V)

module _ {ℓ} {V : Type ℓ} where
  unfoldable pub get : Dict V → String → Option V
  get [] k = none
  get ((j, v) ∷ m) k = if j == k then some v else get m k

  abbrev pub has : Dict V → String → Bool
  has m k = is_some (get m k)

  unfoldable pub put : Dict V → String → V → Dict V
  put [] k v = (k, v) ∷ []
  put ((j, w) ∷ m) k v = if j == k then (k, v) ∷ m else (j, w) ∷ put m k v

  unfoldable pub delete : Dict V → String → Dict V
  delete [] k = []
  delete ((j, w) ∷ m) k = let rest = delete m k in if j == k then rest else (j, w) ∷ rest

  abbrev pub keys : Dict V → List String
  keys m = map (λ e. e.0) m

  -- `new Map(entries)`, from the left: a later entry of a key wins.
  unfoldable pub put_all : Dict V → List (String × V) → Dict V
  put_all m [] = m
  put_all m ((k, v) ∷ es) = put_all (put m k v) es

  pub get-put :
      (m : Dict V) (k : String) (v : V) (j : String)
      → get (put m k v) j ≡ (if k == j then some v else get m j)
  unfolding get put
  get-put [] k v j = refl
  get-put ((i, w) ∷ m) k v j = ground (arith, eq_iff k j, eq_iff i k, eq_iff i j, get-put m k v j)

  pub get-delete :
      (m : Dict V) (k j : String) → get (delete m k) j ≡ (if k == j then none else get m j)
  unfolding get delete
  get-delete [] k j = ground arith
  get-delete ((i, w) ∷ m) k j = ground (arith, eq_iff k j, eq_iff i k, eq_iff i j, get-delete m k j)

  pub length-delete-le : (m : Dict V) (k : String) → length (delete m k) ≤ length m
  unfolding delete
  length-delete-le [] k = omega arith
  length-delete-le ((i, w) ∷ m) k = ground (arith, length-delete-le m k)

  pub length-delete-lt :
      (m : Dict V) (k : String) {v : V} → get m k ≡ some v → length (delete m k) < length m
  unfolding get delete
  length-delete-lt [] k h = absurd (ground arith)
  length-delete-lt ((i, w) ∷ m) k {v} h =
      ground (arith, length-delete-le m k, length-delete-lt m k {v = v})

-- No key twice, as in every JavaScript map.
abbrev pub KeysDistinct {ℓ} : {V : Type ℓ} → Dict V → Type ℓ
KeysDistinct [] = Unit
KeysDistinct (e ∷ m) = (get m e.0 ≡ none) × KeysDistinct m

module _ {ℓ} {V : Type ℓ} where
  pub delete-KeysDistinct : (m : Dict V) (k : String) → KeysDistinct m → KeysDistinct (delete m k)
  unfolding delete
  delete-KeysDistinct [] k d = tt
  delete-KeysDistinct (e ∷ m) k d = ground (arith, delete-KeysDistinct m k d.1, get-delete m k e.0)

  pub put-KeysDistinct :
      (m : Dict V) (k : String) (v : V) → KeysDistinct m → KeysDistinct (put m k v)
  unfolding put get
  put-KeysDistinct [] k v d = (refl, tt)
  put-KeysDistinct (e ∷ m) k v d =
      ground (arith, put-KeysDistinct m k v d.1, get-put m k v e.0, eq_iff e.0 k, eq_iff k e.0)

  -- What holds of every entry that a lookup finds holds of every entry.
  pub All-entries {κ} :
      (P : String → V → Type κ) (es : Dict V)
      → KeysDistinct es
      → ((k : String) (v : V) → get es k ≡ some v → P k v)
      → All (λ e. P e.0 e.1) es
  unfolding get
  All-entries P [] d h = tt
  All-entries P (e ∷ es) d h = (
    h e.0 e.1 (ground (arith, eq_iff e.0 e.0)),
    All-entries P es d.1 (λ k n g. h k n (ground (arith, eq_iff e.0 k, d.0))),
  )

pub ruleset dict_laws = (get-put, get-delete)
