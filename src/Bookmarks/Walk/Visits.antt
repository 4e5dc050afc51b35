-- ===== src/Bookmarks/Walk/Visits.antt =====
-- The walk visits the managed nodes, each once.
use mathlib.Core.Option
use mathlib.Core.List.{Perm, perm_append_comm, append-nil, append_assoc}
use mathlib.Core.List.Perm
use vaultmarks.Shared.{
  ℕ, zero, suc, ◌+◌, ◌<◌, some, List, [], ◌∷◌, ◌++◌, if◌then◌else◌, ◌≡◌, refl, arith, inl, inr,
  Bool-cases, ap, sym, subst, ◌∙◌,
}
use vaultmarks.Bookmarks.Node.{Tree, Forest, Item, node, nil, cons, to_list}
use vaultmarks.Bookmarks.Roots.{Roots, is_any_root_id}
use vaultmarks.Bookmarks.Walk.{is_beside_roots, walk, size, sizes, queue_size, managed}

-- The managed nodes, by recursion on the tree.
mutual
  pub collect : Roots → Tree → List Item
  collect r (node i ts) =
      if is_any_root_id r i.id
      then collect_forest r ts
      else if is_beside_roots r i
      then []
      else i ∷ collect_forest r ts

  pub collect_forest : Roots → Forest → List Item
  collect_forest r nil = []
  collect_forest r (cons t ts) = collect r t ++ collect_forest r ts

abbrev collect_queue : Roots → List Tree → List Item
collect_queue r [] = []
collect_queue r (t ∷ ts) = collect r t ++ collect_queue r ts

collect_queue-to_list :
    (r : Roots) (ts : Forest) → collect_queue r (to_list ts) ≡ collect_forest r ts
unfolding collect_forest
collect_queue-to_list r nil = refl
collect_queue-to_list r (cons t ts) = ap (◌++◌ (collect r t)) (collect_queue-to_list r ts)

collect_queue-append :
    (r : Roots) (q p : List Tree)
    → collect_queue r (q ++ p) ≡ collect_queue r q ++ collect_queue r p
collect_queue-append r [] p = refl
collect_queue-append r (t ∷ q) p =
    rw (collect_queue-append r q p)
      (sym (append_assoc (collect r t) (collect_queue r q) (collect_queue r p)))

queue_size-append : (q p : List Tree) → queue_size (q ++ p) ≡ queue_size q + queue_size p
unfolding queue_size
queue_size-append [] p = omega arith
queue_size-append (t ∷ q) p = omega (arith, queue_size-append q p)

queue_size-to_list : (ts : Forest) → queue_size (to_list ts) ≡ sizes ts
unfolding queue_size
queue_size-to_list nil = refl
queue_size-to_list (cons t ts) = ap (◌+◌ (size t)) (queue_size-to_list ts)

-- The order in which the children are visited does not matter to the count.
later :
    (r : Roots) (q : List Tree) (ts : Forest) {out : List Item}
    → Perm out (collect_queue r (q ++ to_list ts))
    → Perm out (collect_forest r ts ++ collect_queue r q)
later r q ts {out} p =
    Perm.trans
      (subst (Perm out)
        (collect_queue-append r q (to_list ts)
          ∙ ap (◌++◌ (collect_queue r q)) (collect_queue-to_list r ts))
        p)
      (perm_append_comm (collect_queue r q) (collect_forest r ts))

walk_total :
    (r : Roots) (fuel : ℕ) (q : List Tree)
    → queue_size q < fuel
    → (out : List Item) × (walk r fuel q ≡ some out) × Perm out (collect_queue r q)
unfolding walk queue_size collect
walk_total r zero q h = absurd (omega arith)
walk_total r (suc fuel) [] h = ([], refl, Perm.refl [])
walk_total r (suc fuel) (node i ts ∷ q) h =
    let (out, e, p) =
      walk_total r fuel (q ++ to_list ts)
        (omega (arith, queue_size-append q (to_list ts), queue_size-to_list ts)) in
    elim (Bool-cases (is_any_root_id r i.id)) [
      | inl root ↦ (out, rw root e, rw root (later r q ts p))
      | inr inner ↦ elim (Bool-cases (is_beside_roots r i)) [
        | inl beside ↦
            let (out', e', p') = walk_total r fuel q (omega arith) in
            (out', rw (inner, beside) e', rw (inner, beside) p')
        | inr inside ↦ (
          i ∷ out,
          rw (inner, inside) (ap (Option.map (◌∷◌ i)) e),
          rw (inner, inside) (Perm.cons i (later r q ts p)),
        )
      ]
    ]

-- The walk of any tree ends within a round for each node and one more, and visits exactly the
-- nodes that the recursion over the tree collects, each as often.
pub managed_total :
    (r : Roots) (root : Tree)
    → (out : List Item) × (managed r root ≡ some out) × Perm out (collect r root)
unfolding managed
managed_total r root =
    let (out, e, p) = walk_total r (suc (queue_size (root ∷ []))) (root ∷ []) (omega arith) in
    (out, e, subst (Perm out) (append-nil (collect r root)) p)
