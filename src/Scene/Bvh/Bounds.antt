-- ===== src/Scene/Bvh/Bounds.antt =====
-- The first pass over nodes, primitives and materials of `LoadBvh` (src/scene/bvh.cpp).
use p2p_gpu.Base.{
  ℕ, zero, suc, ◌+◌, ◌≤◌, ◌<◌, max, ◌≡◌, refl, subst, ◌⊎◌, inl, inr, Bool, true, false, some, List,
  [], ◌∷◌, arith, ltb, leb, if◌then◌else◌, get_elem?,
}
use p2p_gpu.Protocol.Errors.{ok, ◌>>◌, fail_if}
use p2p_gpu.Protocol.Chains.{fail_if-ok, >>-ok}
use p2p_gpu.Scene.Bvh.{BvhNode, BvhPrim, BvhMaterial, is_leaf, count_of}
use p2p_gpu.Scene.Bvh.Load.{
  bvh_error, leaf_fault, child_fault, check_as, check_node, check_nodes, check_prims,
  check_materials,
}

-- A leaf spans inside the primitives; an internal node's children are inside, and come later than it.
abbrev pub IsInBounds : ℕ → ℕ → ℕ → BvhNode → Type 0
IsInBounds node_count prim_count i n =
    ((is_leaf n ≡ true) × (0 < count_of n) × (n.left_or_first + count_of n ≤ prim_count))
    ⊎ ((is_leaf n ≡ false) × (i < n.left_or_first) × (n.left_or_first + 1 < node_count))

check_as-ok :
    (node_count prim_count i : ℕ) (n : BvhNode) (leaf : Bool)
    → is_leaf n ≡ leaf
    → check_as node_count prim_count i n leaf ≡ ok tt
    → IsInBounds node_count prim_count i n
check_as-ok node_count prim_count i n true e h =
    let fine = fail_if-ok (leaf_fault prim_count n) _ h in inl (e, some_prims fine, inside fine)
  where
    some_prims : leaf_fault prim_count n ≡ false → 0 < count_of n
    some_prims fine = ground (arith, fine)

    inside : leaf_fault prim_count n ≡ false → n.left_or_first + count_of n ≤ prim_count
    inside fine = ground (arith, fine)
check_as-ok node_count prim_count i n false e h =
    let (_, last) =
      >>-ok _
        (fail_if (child_fault node_count i n)
          (bvh_error "bvh: a child index is out of range or does not increase"))
        tt h in
    let fine = fail_if-ok (child_fault node_count i n) _ last in inr (e, later fine, inside fine)
  where
    later : child_fault node_count i n ≡ false → i < n.left_or_first
    later fine = ground (arith, fine)

    inside : child_fault node_count i n ≡ false → n.left_or_first + 1 < node_count
    inside fine = ground (arith, fine)

check_nodes-cons :
    (node_count prim_count i : ℕ) (m : BvhNode) (nodes : List BvhNode) (widest w : ℕ)
    → check_nodes node_count prim_count i (m ∷ nodes) widest ≡ ok w
    → (check_as node_count prim_count i m (is_leaf m) ≡ ok tt)
      × (check_nodes node_count prim_count
            (suc i)
            nodes
            (if is_leaf m then max widest (count_of m) else widest)
          ≡ ok w)
unfolding check_nodes check_node
check_nodes-cons node_count prim_count i m nodes widest w h =
    >>-ok (check_as node_count prim_count i m (is_leaf m))
      (check_nodes node_count prim_count (suc i) nodes
        (if is_leaf m then max widest (count_of m) else widest))
      w h

pub check_nodes-ok :
    (node_count prim_count i : ℕ) (nodes : List BvhNode) (widest w : ℕ)
    → check_nodes node_count prim_count i nodes widest ≡ ok w
    → (k : ℕ) (n : BvhNode) → get_elem? nodes k ≡ some n
    → IsInBounds node_count prim_count (i + k) n
check_nodes-ok node_count prim_count i [] widest w h k n e = cc
check_nodes-ok node_count prim_count i (m ∷ nodes) widest w h zero n e =
    let (first, _) = check_nodes-cons node_count prim_count i m nodes widest w h in
    let same : m ≡ n = cc in
    subst (λ x. IsInBounds node_count prim_count x n) {x = i} {y = i + zero} (omega arith)
      (subst (IsInBounds node_count prim_count i) same
        (check_as-ok node_count prim_count i m (is_leaf m) refl first))
check_nodes-ok node_count prim_count i (m ∷ nodes) widest w h (suc k) n e =
    let (_, rest) = check_nodes-cons node_count prim_count i m nodes widest w h in
    subst (λ x. IsInBounds node_count prim_count x n) {x = suc i + k} {y = i + suc k} (omega arith)
      (check_nodes-ok node_count prim_count (suc i) nodes
        (if is_leaf m then max widest (count_of m) else widest) w rest k n e)

pub check_prims-ok :
    (material_count : ℕ) (prims : List BvhPrim)
    → check_prims material_count prims ≡ ok tt
    → (k : ℕ) (p : BvhPrim) → get_elem? prims k ≡ some p
    → (p.kind ≤ 1) × (p.material < material_count)
unfolding check_prims
check_prims-ok material_count [] h k p e = cc
check_prims-ok material_count (q ∷ prims) h k p e =
    let known_kind = fail_if (ltb 1 q.kind) (bvh_error "bvh: a primitive has an unknown kind") in
    let inside_materials =
      fail_if (leb material_count q.material)
        (bvh_error "bvh: a primitive references an out-of-range material") in
    let (both, rest) =
      >>-ok (known_kind >> inside_materials) (check_prims material_count prims) tt h in
    let (known, inside) = >>-ok known_kind inside_materials tt both in
    at_or_later k (fail_if-ok (ltb 1 q.kind) _ known)
      (fail_if-ok (leb material_count q.material) _ inside)
      (λ j later. check_prims-ok material_count prims rest j p later) e
  where
    at_or_later :
        (k : ℕ)
        → ltb 1 q.kind ≡ false
        → leb material_count q.material ≡ false
        → ((j : ℕ) → get_elem? prims j ≡ some p → (p.kind ≤ 1) × (p.material < material_count))
        → get_elem? (q ∷ prims) k ≡ some p
        → (p.kind ≤ 1) × (p.material < material_count)
    at_or_later zero known inside later e =
        let same : q ≡ p = cc in
        subst (λ x. (x.kind ≤ 1) × (x.material < material_count)) same
          (ground (arith, known), ground (arith, inside))
    at_or_later (suc j) known inside later e = later j e

pub check_materials-ok :
    (materials : List BvhMaterial)
    → check_materials materials ≡ ok tt
    → (k : ℕ) (m : BvhMaterial) → get_elem? materials k ≡ some m
    → m.kind ≤ 2
unfolding check_materials
check_materials-ok [] h k m e = cc
check_materials-ok (q ∷ materials) h zero m e =
    let (known, _) =
      >>-ok (fail_if (ltb 2 q.kind) (bvh_error "bvh: a material has an unknown kind"))
        (check_materials materials) tt h in
    let fine : ltb 2 q.kind ≡ false = fail_if-ok (ltb 2 q.kind) _ known in
    let same : q ≡ m = cc in subst (λ x. x.kind ≤ 2) same (ground (arith, fine))
check_materials-ok (q ∷ materials) h (suc k) m e =
    let (_, rest) =
      >>-ok (fail_if (ltb 2 q.kind) (bvh_error "bvh: a material has an unknown kind"))
        (check_materials materials) tt h in
    check_materials-ok materials rest k m e
