-- ===== src/Shared/Perms.antt =====
-- What a permutation of the entries of a map keeps.
use Prim.Native.String.{String}
use mathlib.Core.Path.{◌≡◌, refl, sym, subst}
use mathlib.Core.Logic.{inl, inr}
use mathlib.Core.Logic.Or
use mathlib.Core.Option.{none}
use mathlib.Core.List.{
  [], ◌∷◌, Perm, Nodup, Nodup-cons, Nodup-nil, Mem, mem-cons, mem-cons_self, mem-cons_of_mem,
  not-mem-nil,
}
use mathlib.Core.List.Perm
use native.Mathlib.Omega.{arith}
use text.Mathlib.Text.{◌==◌}
use text.Mathlib.TextEquality.{eq_iff}
use vaultmarks.Shared.Tests.{Bool-cases}
use vaultmarks.Shared.Dict.{Dict, get, keys, KeysDistinct}

module _ {V : Type 0} where
  get-not-mem : (es : Dict V) (k : String) → get es k ≡ none → ¬ (Mem k (keys es))
  unfolding get
  get-not-mem [] k h m = not-mem-nil m
  get-not-mem (e ∷ es) k h m = elim (Bool-cases (e.0 == k)) [
    | inl here ↦ absurd (ground (arith, h, here))
    | inr later ↦
        Or.elim (hlevel) (mem-cons.0 m) (λ q. absurd (ground (arith, eq_iff e.0 k, later, sym q)))
          (get-not-mem es k (ground (arith, h, later)))
  ]

  not-mem-get : (es : Dict V) (k : String) → ¬ (Mem k (keys es)) → get es k ≡ none
  unfolding get
  not-mem-get [] k h = refl
  not-mem-get (e ∷ es) k h = elim (Bool-cases (e.0 == k)) [
    | inl here ↦
        absurd (h (subst (λ x. Mem x (keys (e ∷ es))) ((eq_iff e.0 k).0 here) mem-cons_self))
    | inr later ↦ rw later (not-mem-get es k (λ m. h (mem-cons_of_mem e.0 m)))
  ]

  KeysDistinct-Nodup : (es : Dict V) → KeysDistinct es → Nodup (keys es)
  KeysDistinct-Nodup [] d = Nodup-nil
  KeysDistinct-Nodup (e ∷ es) d = Nodup-cons.1 (get-not-mem es e.0 d.0, KeysDistinct-Nodup es d.1)

  Nodup-KeysDistinct : (es : Dict V) → Nodup (keys es) → KeysDistinct es
  Nodup-KeysDistinct [] d = tt
  Nodup-KeysDistinct (e ∷ es) d =
      (not-mem-get es e.0 (Nodup-cons.0 d).0, Nodup-KeysDistinct es (Nodup-cons.0 d).1)

  pub perm-KeysDistinct : (es fs : Dict V) → Perm fs es → KeysDistinct es → KeysDistinct fs
  perm-KeysDistinct es fs p d =
      Nodup-KeysDistinct fs ((Perm.Nodup-iff (Perm.map (λ e. e.0) p)).1 (KeysDistinct-Nodup es d))

  pub perm-get-none : (es fs : Dict V) (k : String) → Perm fs es → get es k ≡ none → get fs k ≡ none
  perm-get-none es fs k p h =
      not-mem-get fs k (λ m. get-not-mem es k h ((Perm.mem_iff (Perm.map (λ e. e.0) p)).0 m))
