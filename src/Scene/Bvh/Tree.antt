-- ===== src/Scene/Bvh/Tree.antt =====
-- What `LoadBvh` (src/scene/bvh.cpp) promises of a file that it accepts.
use p2p_gpu.Base.{
  ℕ, zero, suc, ◌+◌, ◌≤◌, ◌<◌, ◌≡◌, refl, sym, ap, subst, ◌∙◌, inl, inr, Bool, true, false, not,
  some, List, [], ◌∷◌, arith, ltb, length, get_elem?, get_or, drop, all_of, replicate,
  length-replicate, get_or-replicate,
}
use p2p_gpu.Protocol.Errors.{Result, ok, ◌>>◌, ◌>>=◌, fail_if}
use p2p_gpu.Protocol.Chains.{fail_if-ok, >>-ok, >>=-ok}
use p2p_gpu.Scene.Bvh.{
  max_bvh_nodes, header_size, node_size, prim_size, material_size, BvhHeader, BvhNode, BvhPrim,
  BvhMaterial, Bvh, header_of, node_of, prim_of, material_of, array_of,
}
use p2p_gpu.Scene.Bvh.Load.{
  bvh_error, check_header, check_layout, check_nodes, check_prims, check_materials, mark_all,
  check_reached, bvh_of, check_arrays, load_bvh,
}
use p2p_gpu.Scene.Bvh.Bounds.{IsInBounds, check_nodes-ok, check_prims-ok, check_materials-ok}
use p2p_gpu.Scene.Bvh.Marks.{IsChild, Parents, mark_all-Parents}

-- Everything in the arrays points inside them, and the nodes are a tree rooted at the first, whose every
-- edge goes to a later node.
pub record IsTree (b : Bvh) : Type 0 where
  pub small : length b.nodes ≤ max_bvh_nodes
  pub nodes_inside :
      (k : ℕ) (n : BvhNode)
      → get_elem? b.nodes k ≡ some n
      → IsInBounds (length b.nodes) (length b.prims) k n
  pub prims_inside :
      (k : ℕ) (p : BvhPrim)
      → get_elem? b.prims k ≡ some p
      → (p.kind ≤ 1) × (p.material < length b.materials)
  pub materials_known : (k : ℕ) (m : BvhMaterial) → get_elem? b.materials k ≡ some m → m.kind ≤ 2
  pub parent :
      (j : ℕ)
      → 0 < j
      → j < length b.nodes
      → (k : ℕ) × (n : BvhNode) × (get_elem? b.nodes k ≡ some n) × IsChild n j × (k < j)
  pub sole :
      (k l : ℕ) (n m : BvhNode) (j : ℕ)
      → get_elem? b.nodes k ≡ some n
      → IsChild n j
      → get_elem? b.nodes l ≡ some m
      → IsChild m j
      → j < length b.nodes
      → k ≡ l

all_true :
    (xs : List Bool) (j : ℕ) → all_of (λ b. b) xs ≡ true → j < length xs → get_or xs j false ≡ true
all_true [] j h inside = absurd (omega arith)
all_true (true ∷ xs) zero h inside = refl
all_true (true ∷ xs) (suc j) h inside = all_true xs j h (omega arith)
all_true (false ∷ xs) j h inside = cc

check_reached-ok :
    (marked : List Bool)
    → check_reached marked ≡ ok tt
    → (j : ℕ) → 0 < j
    → j < length marked
    → get_or marked j false ≡ true
unfolding check_reached
check_reached-ok [] h j later inside = absurd (omega arith)
check_reached-ok (x ∷ marked) h zero later inside = absurd (omega arith)
check_reached-ok (x ∷ marked) h (suc j) later inside =
    all_true marked j (of_fault (fail_if-ok (not (all_of (λ b. b) marked)) _ h)) (omega arith)
  where
    of_fault : not (all_of (λ b. b) marked) ≡ false → all_of (λ b. b) marked ≡ true
    of_fault e = ground (arith, e)

child_later :
    (nodes prims k j : ℕ) (n : BvhNode)
    → nodes ≤ max_bvh_nodes
    → IsInBounds nodes prims k n
    → IsChild n j
    → k < j
child_later nodes prims k j n small (inl (leaf, some_prims, inside)) (inner, _) = cc
child_later nodes prims k j n small (inr (_, later, inside)) (_, inl here) = omega arith
child_later nodes prims k j n small (inr (_, later, inside)) (_, inr here) = omega arith

length-array_of :
    {A : Type 0} (size : ℕ) (f : List ℕ → A) (n : ℕ) (bytes : List ℕ)
    → length (array_of size f n bytes) ≡ n
unfolding array_of
length-array_of size f zero bytes = refl
length-array_of size f (suc n) bytes = ap suc (length-array_of size f n (drop size bytes))

check_header-small : (h : BvhHeader) → check_header h ≡ ok tt → h.node_count ≤ max_bvh_nodes
unfolding check_header
check_header-small h e = ground arith

check_arrays-IsTree :
    (nodes : List BvhNode) (prims : List BvhPrim) (materials : List BvhMaterial) (b : Bvh)
    → length nodes ≤ max_bvh_nodes
    → check_arrays nodes prims materials ≡ ok b
    → IsTree b
unfolding check_arrays
check_arrays-IsTree nodes prims materials b small h =
    let unmarked = replicate (length nodes) false in
    let finish : ℕ → List Bool → Result Bvh =
      λ widest marked. check_reached marked >> ok (bvh_of nodes prims materials widest) in
    let mark : ℕ → Result Bvh = λ widest. mark_all nodes unmarked >>= finish widest in
    let passes : ℕ → Result Bvh =
      λ widest. check_prims (length materials) prims >> check_materials materials >> mark widest in
    let (widest, inside, second) =
      >>=-ok (check_nodes (length nodes) (length prims) 0 nodes 0) passes b h in
    let (firsts, third) =
      >>-ok (check_prims (length materials) prims >> check_materials materials) (mark widest) b
        second in
    let (prims_ok, materials_ok) =
      >>-ok (check_prims (length materials) prims) (check_materials materials) tt firsts in
    let (marked, parents, last) = >>=-ok (mark_all nodes unmarked) (finish widest) b third in
    let (reached, same) =
      >>-ok (check_reached marked) (ok (bvh_of nodes prims materials widest)) b last in
    let is_b : bvh_of nodes prims materials widest ≡ b = cc in
    subst IsTree is_b (
      tree_of widest marked (check_nodes-ok (length nodes) (length prims) 0 nodes 0 widest inside)
        (check_prims-ok (length materials) prims prims_ok)
        (check_materials-ok materials materials_ok) (mark_all-Parents nodes unmarked marked parents)
        (check_reached-ok marked reached))
  where
    tree_of :
        (widest : ℕ) (marked : List Bool)
        → ((k : ℕ) (n : BvhNode)
            → get_elem? nodes k ≡ some n
            → IsInBounds (length nodes) (length prims) (0 + k) n)
        → ((k : ℕ) (p : BvhPrim)
            → get_elem? prims k ≡ some p
            → (p.kind ≤ 1) × (p.material < length materials))
        → ((k : ℕ) (m : BvhMaterial) → get_elem? materials k ≡ some m → m.kind ≤ 2)
        → Parents nodes (replicate (length nodes) false) marked
        → ((j : ℕ) → 0 < j → j < length marked → get_or marked j false ≡ true)
        → IsTree (bvh_of nodes prims materials widest)
    tree_of widest marked inside prims_ok materials_ok parents reached = record {
      small = small;
      nodes_inside = at_node;
      prims_inside = prims_ok;
      materials_known = materials_ok;
      parent = parent_of;
      sole = λ k l n m j at child at_m again j_inside.
          parents.sole k l n m j at child at_m again
            (subst (λ x. j < x) (sym (length-replicate (length nodes) false)) j_inside);
    }
      where
        at_node :
            (k : ℕ) (n : BvhNode)
            → get_elem? nodes k ≡ some n
            → IsInBounds (length nodes) (length prims) k n
        at_node k n at =
            subst (λ x. IsInBounds (length nodes) (length prims) x n) {x = 0 + k} {y = k}
              (omega arith) (inside k n at)

        long : length marked ≡ length nodes
        long = parents.long ∙ length-replicate (length nodes) false

        parent_of :
            (j : ℕ)
            → 0 < j
            → j < length nodes
            → (k : ℕ) × (n : BvhNode) × (get_elem? nodes k ≡ some n) × IsChild n j × (k < j)
        parent_of j later j_inside =
            elim (parents.from j (reached j later (subst (λ x. j < x) (sym long) j_inside))) [
              | inl before ↦ let none_yet = get_or-replicate (length nodes) j false in cc
              | inr (k, n, at, child) ↦ (
                k,
                n,
                at,
                child,
                child_later (length nodes) (length prims) k j n small (at_node k n at) child,
              )
            ]

-- In a file that `LoadBvh` accepts there are at most `max_bvh_nodes` nodes, a leaf's primitives and an
-- internal node's children are inside their arrays, the kinds of primitives and materials and the materials
-- of primitives are known, and every node but the first has exactly one parent, which comes before it.
pub load_bvh-IsTree : (bytes : List ℕ) (b : Bvh) → load_bvh bytes ≡ ok b → IsTree b
unfolding load_bvh
load_bvh-IsTree bytes b h =
    let head = header_of bytes in
    let long_enough =
      fail_if (ltb (length bytes) header_size) (bvh_error "bvh: shorter than its header") in
    let nodes = array_of node_size node_of head.node_count (drop head.node_offset bytes) in
    let prims = array_of prim_size prim_of head.prim_count (drop head.prim_offset bytes) in
    let materials =
      array_of material_size material_of head.material_count (drop head.material_offset bytes) in
    let (checks, arrays) =
      >>-ok (long_enough >> check_header head >> check_layout head (length bytes))
        (check_arrays nodes prims materials) b h in
    let (checks_of_head, _) =
      >>-ok (long_enough >> check_header head) (check_layout head (length bytes)) tt checks in
    let (_, header) = >>-ok long_enough (check_header head) tt checks_of_head in
    check_arrays-IsTree nodes prims materials b
      (subst (λ x. x ≤ max_bvh_nodes)
        (sym (length-array_of node_size node_of head.node_count (drop head.node_offset bytes)))
        (check_header-small head header))
      arrays
