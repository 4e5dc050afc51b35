-- ===== src/Bookmarks/Walk/Parents.antt =====
-- The walk lists parents before their children.

use vaultmarks.Shared.{
  ℕ, zero, suc, String, Bool, true, false, none, some, List, [], ◌∷◌, ◌++◌, ◌⊎◌, ◌≡◌, arith, inl,
  inr, Bool-cases, contains, add, contains-add, eq_iff, All, Option-cases, subst, sym, ◌||◌,
}
use vaultmarks.Bookmarks.Node.{Tree, Forest, Item, node, nil, cons, to_list, item}
use vaultmarks.Bookmarks.Roots.{Roots, is_any_root_id}
use vaultmarks.Bookmarks.Walk.{is_beside_roots, walk, queue_size, managed}

-- Every child names its parent, as the browser's trees do.
abbrev mutual
  pub IsLinked : Tree → Type 0
  IsLinked (node i ts) = AreLinked i.id ts

  pub AreLinked : String → Forest → Type 0
  AreLinked p nil = Unit
  AreLinked p (cons t ts) = ((item t).parent_id ≡ some p) × IsLinked t × AreLinked p ts

module _ (r : Roots) where
  -- The node's parent is a root or one of the nodes that were seen.
  abbrev pub is_parent_known : List String → Item → Bool
  is_parent_known seen i = elim i.parent_id [
    | none ↦ false
    | some p ↦ is_any_root_id r p || contains seen p
  ]

  abbrev pub ParentsFirst : List String → List Item → Type 0
  ParentsFirst seen [] = Unit
  ParentsFirst seen (i ∷ is) = (is_parent_known seen i ≡ true) × ParentsFirst (add seen i.id) is

  abbrev IsReady : List String → Tree → Type 0
  IsReady seen t =
      IsLinked t × ((is_any_root_id r (item t).id || is_parent_known seen (item t)) ≡ true)

  is_parent_known-add :
      (seen : List String) (k : String) (i : Item)
      → is_parent_known seen i ≡ true
      → is_parent_known (add seen k) i ≡ true
  is_parent_known-add seen k i h = elim (Option-cases i.parent_id) [
    | inl e ↦ absurd (ground arith)
    | inr (p, e) ↦ ground (arith, contains-add seen k p)
  ]

  IsReady-add :
      (seen : List String) (k : String) (q : List Tree)
      → All (IsReady seen) q
      → All (IsReady (add seen k)) q
  IsReady-add seen k [] h = tt
  IsReady-add seen k (t ∷ q) h = (
    (h.0.0, ground (arith, is_parent_known-add seen k (item t), h.0.1)),
    IsReady-add seen k q h.1,
  )

  children-IsReady :
      (seen : List String) (p : String) (ts : Forest)
      → AreLinked p ts
      → (is_any_root_id r p || contains seen p) ≡ true
      → All (IsReady seen) (to_list ts)
  children-IsReady seen p nil h k = tt
  children-IsReady seen p (cons t ts) h k =
      ((h.1, ground (arith, h.0)), children-IsReady seen p ts h.2 k)

  All-append : (P : Tree → Type 0) (q p : List Tree) → All P q → All P p → All P (q ++ p)
  All-append P [] p hq hp = hp
  All-append P (t ∷ q) p hq hp = (hq.0, All-append P q p hq.1 hp)

  walk_cases :
      (fuel : ℕ) (i : Item) (ts : Forest) (q : List Tree) {out : List Item}
      → walk r (suc fuel) (node i ts ∷ q) ≡ some out
      → ((is_any_root_id r i.id ≡ true) × (walk r fuel (q ++ to_list ts) ≡ some out))
        ⊎ (walk r fuel q ≡ some out)
        ⊎ ((is_any_root_id r i.id ≡ false)
            × ((rest : List Item) × (walk r fuel (q ++ to_list ts) ≡ some rest) × (out ≡ i ∷ rest)))
  unfolding walk
  walk_cases fuel i ts q e = elim (Option-cases (walk r fuel (q ++ to_list ts))) [
    | inl none_left ↦ ground arith
    | inr (rest, e') ↦ elim (Bool-cases (is_any_root_id r i.id)) [
      | inl root ↦ inl (root, ground arith)
      | inr inner ↦ elim (Bool-cases (is_beside_roots r i)) [
        | inl beside ↦ inr (inl (ground arith))
        | inr inside ↦ inr (inr (inner, (rest, e', ground arith)))
      ]
    ]
  ]

  walk_parents :
      (fuel : ℕ) (seen : List String) (q : List Tree) {out : List Item}
      → All (IsReady seen) q
      → walk r fuel q ≡ some out
      → ParentsFirst seen out
  unfolding walk
  walk_parents zero seen q h e = absurd (ground arith)
  walk_parents (suc fuel) seen [] {out} h e =
      let o : [] ≡ out = ground arith in subst (ParentsFirst seen) o tt
  walk_parents (suc fuel) seen (node i ts ∷ q) {out} h e = elim (walk_cases fuel i ts q e) [
    | inl (root, e') ↦
        walk_parents fuel seen (q ++ to_list ts)
          (All-append (IsReady seen) q (to_list ts) h.1
            (children-IsReady seen i.id ts h.0.0 (ground arith)))
          e'
    | inr (inl e') ↦ walk_parents fuel seen q h.1 e'
    | inr (inr (inner, (rest, e', o))) ↦ subst (ParentsFirst seen) (sym o) (
      ground (arith, h.0.1),
      walk_parents fuel (add seen i.id) (q ++ to_list ts)
          (All-append (IsReady (add seen i.id)) q (to_list ts) (IsReady-add seen i.id q h.1) (
            children-IsReady (add seen i.id) i.id ts h.0.0
              (ground (arith, contains-add seen i.id i.id, eq_iff i.id i.id))))
          e',
    )
  ]

  -- In a tree whose root is a root container and whose nodes name their parents, every node that
  -- the walk lists has a parent that is a root container or stands further to the left.
  pub managed_parents :
      (root : Tree) {out : List Item}
      → IsLinked root
      → is_any_root_id r (item root).id ≡ true
      → managed r root ≡ some out
      → ParentsFirst [] out
  unfolding managed
  managed_parents root h k e =
      walk_parents (suc (queue_size (root ∷ []))) [] (root ∷ []) ((h, ground arith), tt) e
