-- ===== src/Scene/Bvh/Marks.antt =====
-- The second pass of `LoadBvh` (src/scene/bvh.cpp): which nodes have a parent.
use p2p_gpu.Base.{
  ℕ, zero, suc, ◌+◌, ◌%◌, ◌<◌, ◌≡◌, refl, sym, ap, subst, ◌∙◌, ◌⊎◌, inl, inr, Bool, true, false,
  ◌||◌, some, List, [], ◌∷◌, arith, ◌==◌, ==_iff, Bool-cases, u32_mod, length, get_elem?, get_or,
  set, length-set, get_or-set_self, get_or-set_other,
}
use p2p_gpu.Protocol.Errors.{ok}
use p2p_gpu.Protocol.Chains.{>>=-ok, if-ok}
use p2p_gpu.Scene.Bvh.{BvhNode, is_leaf}
use p2p_gpu.Scene.Bvh.Load.{mark_child, mark_as, mark_children, mark_all}

abbrev pub IsChild : BvhNode → ℕ → Type 0
IsChild n j = (is_leaf n ≡ false) × ((n.left_or_first ≡ j) ⊎ ((n.left_or_first + 1) % u32_mod ≡ j))

-- A mark is new and goes to a node that is not the root.
mark_child-ok :
    (c : ℕ) (seen marked : List Bool)
    → mark_child c seen ≡ ok marked
    → (get_or seen c false ≡ false) × (marked ≡ set seen c true) × (0 < c)
mark_child-ok c seen marked h =
    let (fresh, e) = if-ok (c == 0 || get_or seen c false) _ (set seen c true) marked h in
    (unseen fresh, sym e, not_root fresh)
  where
    unseen : (c == 0 || get_or seen c false) ≡ false → get_or seen c false ≡ false
    unseen e = ground (arith, e)

    not_root : (c == 0 || get_or seen c false) ≡ false → 0 < c
    not_root e = ground (arith, e)

-- Where a mark can come from.
set-from :
    (seen : List Bool) (c j : ℕ)
    → get_or (set seen c true) j false ≡ true
    → (c ≡ j) ⊎ (get_or seen j false ≡ true)
set-from seen c j h = elim (Bool-cases (c == j)) [
  | inl here ↦ inl ((==_iff c j).0 here)
  | inr other ↦ inr (sym (get_or-set_other seen c j true false other) ∙ h)
]

set_stays :
    (seen : List Bool) (c j : ℕ)
    → get_or seen j false ≡ true
    → get_or (set seen c true) j false ≡ true
set_stays [] c j h = h
set_stays (x ∷ seen) zero zero h = refl
set_stays (x ∷ seen) zero (suc j) h = h
set_stays (x ∷ seen) (suc c) zero h = h
set_stays (x ∷ seen) (suc c) (suc j) h = set_stays seen c j h

set-unseen :
    (seen : List Bool) (c j : ℕ)
    → get_or (set seen c true) j false ≡ false
    → get_or seen j false ≡ false
set-unseen seen c j h = elim (Bool-cases (get_or seen j false)) [
  | inl there ↦ let e = set_stays seen c j there in cc
  | inr unseen ↦ unseen
]

-- What the children of a node do to the marks.
record Marks (n : BvhNode) (seen marked : List Bool) : Type 0 where
  long : length marked ≡ length seen
  from : (j : ℕ) → get_or marked j false ≡ true → (get_or seen j false ≡ true) ⊎ IsChild n j
  fresh : (j : ℕ) → IsChild n j → get_or seen j false ≡ false
  stays : (j : ℕ) → get_or seen j false ≡ true → get_or marked j false ≡ true
  now : (j : ℕ) → IsChild n j → j < length seen → get_or marked j false ≡ true

mark_as-Marks :
    (n : BvhNode) (seen marked : List Bool) (leaf : Bool)
    → is_leaf n ≡ leaf
    → mark_as n seen leaf ≡ ok marked
    → Marks n seen marked
mark_as-Marks n seen marked true e h =
    let same : seen ≡ marked = cc in
    subst (Marks n seen) same (record {
      long = refl;
      from = λ j there. inl there;
      fresh = λ j (inner, _). cc;
      stays = λ j there. there;
      now = λ j (inner, _) _. cc;
    })
mark_as-Marks n seen marked false e h =
    let c = n.left_or_first in
    let d = (n.left_or_first + 1) % u32_mod in
    let (once, one, two) = >>=-ok (mark_child c seen) (λ m. mark_child d m) marked h in
    let (fresh_c, is_once, _) = mark_child-ok c seen once one in
    let (fresh_d, is_marked, _) = mark_child-ok d once marked two in
    let is_set : set (set seen c true) d true ≡ marked =
      sym (is_marked ∙ ap (λ m. set m d true) is_once) in
    let unseen_d : get_or (set seen c true) d false ≡ false =
      subst (λ m. get_or m d false ≡ false) is_once fresh_d in
    subst (Marks n seen) is_set (both c d refl refl fresh_c (set-unseen seen c d unseen_d))
  where
    both :
        (c d : ℕ)
        → n.left_or_first ≡ c
        → (n.left_or_first + 1) % u32_mod ≡ d
        → get_or seen c false ≡ false
        → get_or seen d false ≡ false
        → Marks n seen (set (set seen c true) d true)
    both c d is_c is_d fresh_c fresh_d = record {
      long = length-set (set seen c true) d true ∙ length-set seen c true;
      from = λ j there. elim (set-from (set seen c true) d j there) [
        | inl here ↦ inr (e, inr (is_d ∙ here))
        | inr before ↦ elim (set-from seen c j before) [
          | inl here ↦ inr (e, inl (is_c ∙ here))
          | inr earlier ↦ inl earlier
        ]
      ];
      fresh = λ j (_, which). elim which [
        | inl here ↦ subst (λ x. get_or seen x false ≡ false) (sym is_c ∙ here) fresh_c
        | inr here ↦ subst (λ x. get_or seen x false ≡ false) (sym is_d ∙ here) fresh_d
      ];
      stays = λ j there. set_stays (set seen c true) d j (set_stays seen c j there);
      now = λ j (_, which) inside. elim which [
        | inl here ↦ set_stays (set seen c true) d j (
            subst (λ x. get_or (set seen x true) j false ≡ true) (sym here ∙ is_c)
              (get_or-set_self seen j true false inside))
        | inr here ↦
            subst (λ x. get_or (set (set seen c true) x true) j false ≡ true) (sym here ∙ is_d)
              (get_or-set_self (set seen c true) j true false
                (subst (λ l. j < l) (sym (length-set seen c true)) inside))
      ];
    }

-- One pass over nodes: `k` is the place of a node among them.
pub record Parents (nodes : List BvhNode) (seen marked : List Bool) : Type 0 where
  pub long : length marked ≡ length seen
  pub from :
      (j : ℕ)
      → get_or marked j false ≡ true
      → (get_or seen j false ≡ true)
        ⊎ ((k : ℕ) × (n : BvhNode) × (get_elem? nodes k ≡ some n) × IsChild n j)
  pub fresh :
      (k : ℕ) (n : BvhNode) (j : ℕ)
      → get_elem? nodes k ≡ some n
      → IsChild n j
      → get_or seen j false ≡ false
  pub sole :
      (k l : ℕ) (n m : BvhNode) (j : ℕ)
      → get_elem? nodes k ≡ some n
      → IsChild n j
      → get_elem? nodes l ≡ some m
      → IsChild m j
      → j < length seen
      → k ≡ l

-- The first node's marks, then those of the nodes after it.
Parents-cons :
    (n : BvhNode) (nodes : List BvhNode) (seen once marked : List Bool)
    → Marks n seen once
    → Parents nodes once marked
    → Parents (n ∷ nodes) seen marked
Parents-cons n nodes seen once marked first rest = record {
  long = rest.long ∙ first.long;
  from = from_either;
  fresh = fresh_either;
  sole = sole_of;
}
  where
    from_either :
        (j : ℕ)
        → get_or marked j false ≡ true
        → (get_or seen j false ≡ true)
          ⊎ ((k : ℕ) × (m : BvhNode) × (get_elem? (n ∷ nodes) k ≡ some m) × IsChild m j)
    from_either j there = elim (rest.from j there) [
      | inr (k, m, at, child) ↦ inr (suc k, m, at, child)
      | inl before ↦ elim (first.from j before) [
        | inl earlier ↦ inl earlier
        | inr child ↦ inr (zero, n, refl, child)
      ]
    ]

    unseen_before : (j : ℕ) → get_or once j false ≡ false → get_or seen j false ≡ false
    unseen_before j h = elim (Bool-cases (get_or seen j false)) [
      | inl there ↦ let e = first.stays j there in cc
      | inr unseen ↦ unseen
    ]

    first_child :
        (m : BvhNode) (j : ℕ) → get_elem? (n ∷ nodes) zero ≡ some m → IsChild m j → IsChild n j
    first_child m j at child = let same : n ≡ m = cc in subst (λ x. IsChild x j) (sym same) child

    fresh_either :
        (k : ℕ) (m : BvhNode) (j : ℕ)
        → get_elem? (n ∷ nodes) k ≡ some m
        → IsChild m j
        → get_or seen j false ≡ false
    fresh_either zero m j at child = first.fresh j (first_child m j at child)
    fresh_either (suc k) m j at child = unseen_before j (rest.fresh k m j at child)

    -- A child of the first node is marked when the others are looked at.
    no_second :
        (l : ℕ) (m : BvhNode) (j : ℕ)
        → IsChild n j
        → get_elem? nodes l ≡ some m
        → IsChild m j
        → j < length seen
        → ⊥
    no_second l m j child at again inside =
        let there = first.now j child inside in let unseen = rest.fresh l m j at again in cc

    sole_of :
        (k l : ℕ) (m p : BvhNode) (j : ℕ)
        → get_elem? (n ∷ nodes) k ≡ some m
        → IsChild m j
        → get_elem? (n ∷ nodes) l ≡ some p
        → IsChild p j
        → j < length seen
        → k ≡ l
    sole_of zero zero m p j at child at_p again inside = refl
    sole_of zero (suc l) m p j at child at_p again inside =
        absurd (no_second l p j (first_child m j at child) at_p again inside)
    sole_of (suc k) zero m p j at child at_p again inside =
        absurd (no_second k m j (first_child p j at_p again) at child inside)
    sole_of (suc k) (suc l) m p j at child at_p again inside =
        ap suc
          (rest.sole k l m p j at child at_p again (subst (λ x. j < x) (sym first.long) inside))

pub mark_all-Parents :
    (nodes : List BvhNode) (seen marked : List Bool)
    → mark_all nodes seen ≡ ok marked
    → Parents nodes seen marked
unfolding mark_all mark_children
mark_all-Parents [] seen marked h =
    let same : seen ≡ marked = cc in
    subst (Parents [] seen) same (record {
      long = refl;
      from = λ j there. inl there;
      fresh = λ k n j at child. cc;
      sole = λ k l n m j at child at_m again inside. cc;
    })
mark_all-Parents (n ∷ nodes) seen marked h =
    let (once, first, rest) =
      >>=-ok (mark_as n seen (is_leaf n)) (λ m. mark_all nodes m) marked h in
    Parents-cons n nodes seen once marked (mark_as-Marks n seen once (is_leaf n) refl first)
      (mark_all-Parents nodes once marked rest)
