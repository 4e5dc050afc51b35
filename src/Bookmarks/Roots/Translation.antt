-- ===== src/Bookmarks/Roots/Translation.antt =====
-- The tables of root ids that extension/src/bookmarks/bridge.ts translates parent ids with.
use vaultmarks.Shared.{
  String, true, false, none, some, List, [], ◌∷◌, ◌≡◌, ◌≢◌, refl, arith, ◌==◌, ◌||◌, eq_iff,
  eq_refl, if◌then◌else◌, not, contains, add, contains-add, String-cases, subst, ◌⊎◌, inl, inr,
  Option-cases, Bool-cases,
}
use vaultmarks.Shared.Dict.{get, has, put, get-put}
use vaultmarks.Bookmarks.Node.{Forest, nil, cons, item}
use vaultmarks.Bookmarks.Roots.{
  Roots, canonical_root_ids, firefox_root_canonical, virtual_roots, add_root, add_roots, add_target,
}

-- What the translation tables promise.
pub record IsConsistent (r : Roots) : Type 0 where
  pub inverse :
      (c n : String)
      → get r.canonical_to_native c ≡ some n
      → (get r.native_to_canonical n ≡ some c) ⊎ ((n ≡ c) × (get r.native_to_canonical c ≡ none))
  pub zero : get r.native_to_canonical "0" ≡ some "0"
  pub canonical :
      (k : String) → contains canonical_root_ids k ≡ true → contains r.all_native_root_ids k ≡ true
  pub native :
      (c n : String)
      → get r.canonical_to_native c ≡ some n
      → contains r.all_native_root_ids n ≡ true
  pub root : get r.canonical_to_native "0" ≢ none

-- An id that a virtual root can have: no id of another root.
abbrev pub IsVirtual : String → Type 0
IsVirtual id =
    ((get firefox_root_canonical id ≡ none) ⊎ (get firefox_root_canonical id ≡ some "0"))
    × (contains ("1" ∷ "2" ∷ "3" ∷ []) id ≡ false)

-- What the loop over the virtual root's children keeps: before the last targets are filled in.
pub record IsTable (r : Roots) : Type 0 where
  pub inverse :
      (c n : String) → get r.canonical_to_native c ≡ some n → get r.native_to_canonical n ≡ some c
  pub zero : get r.native_to_canonical "0" ≡ some "0"
  pub canonical :
      (k : String) → contains canonical_root_ids k ≡ true → contains r.all_native_root_ids k ≡ true
  pub native :
      (c n : String)
      → get r.canonical_to_native c ≡ some n
      → contains r.all_native_root_ids n ≡ true
  pub root : get r.canonical_to_native "0" ≢ none
  pub agree :
      (n c c' : String)
      → get r.native_to_canonical n ≡ some c
      → get firefox_root_canonical n ≡ some c'
      → c ≡ c'
  pub plain :
      (k : String) → contains ("1" ∷ "2" ∷ "3" ∷ []) k ≡ true → get r.native_to_canonical k ≡ none

contains-cases :
    {P : String → Type 0} (x : String) (xs : List String)
    → P x
    → ((k : String) → contains xs k ≡ true → P k)
    → (k : String) → contains (x ∷ xs) k ≡ true
    → P k
unfolding contains
contains-cases {P} x xs px pxs k h = elim (String-cases x k) [
  | inl e ↦ subst P e.0 px
  | inr e ↦ pxs k (ground arith)
]

contains-empty : (k : String) → contains [] k ≢ true
unfolding contains
contains-empty k h = cc

-- A statement about the three canonical roots holds when it holds of each.
pub three :
    (P : String → Type 0)
    → P "1"
    → P "2"
    → P "3"
    → (k : String) → contains ("1" ∷ "2" ∷ "3" ∷ []) k ≡ true
    → P k
three P p q r = contains-cases {P = P} "1" _ p (
    contains-cases {P = P} "2" _ q
      (contains-cases {P = P} "3" _ r (λ k h. absurd (contains-empty k h))))

pub four :
    (P : String → Type 0)
    → P "0"
    → P "1"
    → P "2"
    → P "3"
    → (k : String) → contains canonical_root_ids k ≡ true
    → P k
four P o p q r = contains-cases {P = P} "0" _ o (three P p q r)

firefox_plain :
    (k : String) → contains ("1" ∷ "2" ∷ "3" ∷ []) k ≡ true → get firefox_root_canonical k ≡ none
unfolding get
firefox_plain = three (λ k. get firefox_root_canonical k ≡ none) refl refl refl

zero_plain : (k : String) → contains ("1" ∷ "2" ∷ "3" ∷ []) k ≡ true → ("0" == k) ≡ false
zero_plain = three (λ k. ("0" == k) ≡ false) refl refl refl

firefox_zero : get firefox_root_canonical "0" ≡ none
unfolding get
firefox_zero = refl

module _ (id : String) (v : IsVirtual id) where
  native-virtual :
      (k : String)
      → get (virtual_roots id).native_to_canonical k
        ≡ (if id == k then some "0" else if "0" == k then some "0" else none)
  unfolding virtual_roots
  native-virtual k = rw get-put (unfold get in refl)

  agree_lem :
      (n c c' : String)
      → get (virtual_roots id).native_to_canonical n ≡ some c
      → get firefox_root_canonical n ≡ some c'
      → c ≡ c'
  agree_lem n c c' h h' =
      ground (arith, native-virtual n, v.0, firefox_zero, eq_iff id n, eq_iff "0" n)

  plain_lem :
      (k : String)
      → contains ("1" ∷ "2" ∷ "3" ∷ []) k ≡ true
      → get (virtual_roots id).native_to_canonical k ≡ none
  plain_lem k h = ground (arith, native-virtual k, v.1, eq_iff id k, zero_plain k h)

pub virtual_roots-IsTable : (id : String) → IsVirtual id → IsTable (virtual_roots id)
unfolding virtual_roots get put contains
virtual_roots-IsTable id v = record {
  inverse = λ c n h. ground (arith, eq_iff "0" c, eq_iff id n, eq_iff "0" n, eq_iff "0" id);
  zero = ground (arith, eq_iff "0" id);
  canonical = λ k h. rw (contains-add canonical_root_ids id k) (ground (arith));
  native = λ c n h.
      rw (contains-add canonical_root_ids id n) (ground (arith, eq_iff "0" c, eq_iff id n));
  root = ground arith;
  agree = agree_lem id v;
  plain = plain_lem id v;
}

module _ (r : Roots) (id c0 : String) (t : IsTable r)
    (e : get firefox_root_canonical id ≡ some c0) where
  target :
      (c n : String)
      → get
          (if not (has r.canonical_to_native c0) || id == "unfiled_____"
            then put r.canonical_to_native c0 id
            else r.canonical_to_native)
          c
        ≡ some n
      → ((c ≡ c0) × (n ≡ id)) ⊎ (get r.canonical_to_native c ≡ some n)
  target c n h = ground (arith, get-put r.canonical_to_native c0 id c, eq_iff c0 c)

  inverse_lem :
      (c n : String)
      → ((c ≡ c0) × (n ≡ id)) ⊎ (get r.canonical_to_native c ≡ some n)
      → get (put r.native_to_canonical id c0) n ≡ some c
  inverse_lem c n (inl h) = rw (get-put, h.0, h.1, eq_refl) refl
  inverse_lem c n (inr h) =
      ground
        (arith, get-put r.native_to_canonical id c0 n, eq_iff id n, t.inverse c n h, t.agree n c c0)

  native_lem :
      (c n : String)
      → ((c ≡ c0) × (n ≡ id)) ⊎ (get r.canonical_to_native c ≡ some n)
      → contains (add r.all_native_root_ids id) n ≡ true
  native_lem c n (inl h) =
      rw (contains-add r.all_native_root_ids id n) (ground (arith, eq_iff id n))
  native_lem c n (inr h) = rw (contains-add r.all_native_root_ids id n, t.native c n h) refl

add_root-IsTable : (r : Roots) (id : String) → IsTable r → IsTable (add_root r id)
unfolding add_root
add_root-IsTable r id t = elim (Option-cases (get firefox_root_canonical id)) [
  | inl e ↦ rw (e, add_root) t
  | inr (c0, e) ↦
      rw (e, add_root)
        (record {
          inverse = λ c n h. inverse_lem r id c0 t e c n (target r id c0 t e c n h);
          zero =
              ground (
                arith,
                get-put r.native_to_canonical id c0 "0",
                eq_iff id "0",
                t.zero,
                firefox_zero,
              );
          canonical = λ k h. rw (contains-add r.all_native_root_ids id k, t.canonical k h) refl;
          native = λ c n h. native_lem r id c0 t e c n (target r id c0 t e c n h);
          root = ground (arith, get-put r.canonical_to_native c0 id "0", t.root);
          agree = λ n c c' h h'.
              ground (arith, get-put r.native_to_canonical id c0 n, eq_iff id n, t.agree n c c');
          plain = λ k h. ground (
            arith,
            get-put r.native_to_canonical id c0 k,
            eq_iff id k,
            t.plain k h,
            firefox_plain k h,
          );
        })
]

pub add_roots-IsTable : (r : Roots) (ts : Forest) → IsTable r → IsTable (add_roots r ts)
unfolding add_roots
add_roots-IsTable r nil t = t
add_roots-IsTable r (cons c ts) t =
    add_roots-IsTable (add_root r (item c).id) ts (add_root-IsTable r (item c).id t)

pub IsTable-IsConsistent : (r : Roots) → IsTable r → IsConsistent r
IsTable-IsConsistent r t = record {
  inverse = λ c n h. inl (t.inverse c n h);
  zero = t.zero;
  canonical = t.canonical;
  native = t.native;
  root = t.root;
}

pub three-canonical :
    (k : String) → contains ("1" ∷ "2" ∷ "3" ∷ []) k ≡ true → contains canonical_root_ids k ≡ true
unfolding contains
three-canonical k h = ground arith

-- Filling in the target of one canonical root.
pub add_target-IsConsistent :
    (r : Roots) (k : String)
    → contains ("1" ∷ "2" ∷ "3" ∷ []) k ≡ true
    → get r.native_to_canonical k ≡ none
    → IsConsistent r
    → IsConsistent (add_target r k)
unfolding add_target
add_target-IsConsistent r k three_k pl t = elim (Bool-cases (has r.canonical_to_native k)) [
  | inl e ↦ rw (e, add_target) t
  | inr e ↦
      rw (e, add_target)
        (record {
          inverse = λ c n h.
              ground (arith, get-put r.canonical_to_native k k c, eq_iff k c, t.inverse c n);
          zero = t.zero;
          canonical = t.canonical;
          native = λ c n h. ground (
            arith,
            get-put r.canonical_to_native k k c,
            eq_iff k c,
            t.native c n,
            t.canonical k,
            three-canonical k three_k,
          );
          root = ground (arith, get-put r.canonical_to_native k k "0", t.root);
        })
]
