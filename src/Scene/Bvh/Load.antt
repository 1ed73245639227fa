-- ===== src/Scene/Bvh/Load.antt =====
-- `LoadBvh` of src/scene/bvh.cpp: every check of a file that a worker takes from an untrusted source.
use p2p_gpu.Base.{
  ℕ, suc, ◌+◌, ◌*◌, ◌%◌, max, String, Bool, true, false, not, ◌||◌, List, [], ◌∷◌, ltb, leb, ◌==◌,
  if◌then◌else◌, u32_mod, length, get_or, set, drop, any_of, all_of, replicate,
}
use p2p_gpu.Protocol.Errors.{
  internal, Error, make_error, Result, ok, err, Status, ◌>>◌, ◌>>=◌, fail_if,
}
use p2p_gpu.Scene.Bvh.{
  bvh_magic, bvh_version, max_bvh_nodes, max_bvh_prims, max_bvh_materials, header_size, node_size,
  prim_size, material_size, BvhHeader, BvhNode, BvhPrim, BvhMaterial, Bvh, header_of, node_of,
  prim_of, material_of, array_of, is_leaf, count_of,
}

-- `MakeError(ErrorCode::Internal, message)`.
abbrev pub bvh_error : String → Error
bvh_error message = make_error internal message

unfoldable pub check_header : BvhHeader → Status
check_header h = do
  fail_if (not (h.magic == bvh_magic)) (bvh_error "bvh: bad magic")
  fail_if (not (h.version == bvh_version)) (bvh_error "bvh: unsupported version")
  fail_if (any_of (λ r. not (r == 0)) h.reserved) (bvh_error "bvh: reserved field is non-zero")
  fail_if (h.node_count == 0 || ltb max_bvh_nodes h.node_count)
      (bvh_error "bvh: node_count is zero or over kMaxBvhNodes")
  fail_if (h.prim_count == 0 || ltb max_bvh_prims h.prim_count)
      (bvh_error "bvh: prim_count is zero or over kMaxBvhPrims")
  fail_if (h.material_count == 0 || ltb max_bvh_materials h.material_count)
      (bvh_error "bvh: material_count is zero or over kMaxBvhMaterials")

abbrev pub want_prim_off : BvhHeader → ℕ
want_prim_off h = header_size + h.node_count * node_size

abbrev pub want_mat_off : BvhHeader → ℕ
want_mat_off h = want_prim_off h + h.prim_count * prim_size

abbrev pub want_total : BvhHeader → ℕ
want_total h = want_mat_off h + h.material_count * material_size

unfoldable pub check_layout : BvhHeader → ℕ → Status
check_layout h size = do
  fail_if
      (not (h.node_offset == header_size)
        || not (h.prim_offset == want_prim_off h)
        || not (h.material_offset == want_mat_off h)
        || not (h.total_bytes == want_total h))
      (bvh_error "bvh: section offsets disagree with the declared counts")
  fail_if (not (size == want_total h))
      (bvh_error "bvh: buffer length disagrees with the declared total_bytes")

-- A leaf spans inside the primitives, the children of an internal node are inside and come later.
abbrev pub leaf_fault : ℕ → BvhNode → Bool
leaf_fault prim_count n = count_of n == 0 || ltb prim_count (n.left_or_first + count_of n)

abbrev pub child_fault : ℕ → ℕ → BvhNode → Bool
child_fault node_count i n = leb n.left_or_first i || leb node_count (n.left_or_first + 1)

abbrev pub check_as : ℕ → ℕ → ℕ → BvhNode → Bool → Status
check_as node_count prim_count i n true =
    fail_if (leaf_fault prim_count n) (bvh_error "bvh: a leaf spans outside the primitive array")
check_as node_count prim_count i n false =
    fail_if (not (count_of n == 0)) (bvh_error "bvh: an internal node declares a primitive count")
    >> fail_if (child_fault node_count i n)
        (bvh_error "bvh: a child index is out of range or does not increase")

-- One round of the loop over nodes.
unfoldable pub check_node : ℕ → ℕ → ℕ → BvhNode → Status
check_node node_count prim_count i n = check_as node_count prim_count i n (is_leaf n)

-- The loop, with the largest leaf so far.
unfoldable pub check_nodes : ℕ → ℕ → ℕ → List BvhNode → ℕ → Result ℕ
check_nodes node_count prim_count i [] widest = ok widest
check_nodes node_count prim_count i (n ∷ nodes) widest =
    check_node node_count prim_count i n
    >> check_nodes node_count prim_count (suc i) nodes
        (if is_leaf n then max widest (count_of n) else widest)

unfoldable pub check_prims : ℕ → List BvhPrim → Status
check_prims material_count [] = ok tt
check_prims material_count (p ∷ prims) =
    fail_if (ltb 1 p.kind) (bvh_error "bvh: a primitive has an unknown kind")
    >> fail_if (leb material_count p.material)
        (bvh_error "bvh: a primitive references an out-of-range material")
    >> check_prims material_count prims

unfoldable pub check_materials : List BvhMaterial → Status
check_materials [] = ok tt
check_materials (m ∷ materials) =
    fail_if (ltb 2 m.kind) (bvh_error "bvh: a material has an unknown kind")
    >> check_materials materials

-- The second pass: `in_degree` says which nodes have a parent already.
abbrev pub mark_child : ℕ → List Bool → Result (List Bool)
mark_child child in_degree =
    if child == 0 || get_or in_degree child false
    then err
        (bvh_error "bvh: a node has two parents, or the root is a child — the graph is not a tree")
    else ok (set in_degree child true)

abbrev pub mark_as : BvhNode → List Bool → Bool → Result (List Bool)
mark_as n in_degree true = ok in_degree
mark_as n in_degree false = mark_child n.left_or_first in_degree >>= λ marked.
    mark_child ((n.left_or_first + 1) % u32_mod) marked

unfoldable pub mark_children : BvhNode → List Bool → Result (List Bool)
mark_children n in_degree = mark_as n in_degree (is_leaf n)

unfoldable pub mark_all : List BvhNode → List Bool → Result (List Bool)
mark_all [] in_degree = ok in_degree
mark_all (n ∷ nodes) in_degree = mark_children n in_degree >>= λ marked. mark_all nodes marked

unfoldable pub check_reached : List Bool → Status
check_reached in_degree =
    fail_if (not (all_of (λ b. b) (drop 1 in_degree)))
      (bvh_error "bvh: a node is unreachable from the root")

-- The third pass: a child is one deeper than its parent.
unfoldable pub depth_over : ℕ → List BvhNode → List ℕ → ℕ → ℕ
depth_over i [] depth deepest = deepest
depth_over i (n ∷ nodes) depth deepest =
    let below = (get_or depth i 0 + 1) % u32_mod in
    depth_over (suc i) nodes
      (if is_leaf n
        then depth
        else set (set depth n.left_or_first below) ((n.left_or_first + 1) % u32_mod) below)
      (max deepest (get_or depth i 0))

abbrev pub bvh_of : List BvhNode → List BvhPrim → List BvhMaterial → ℕ → Bvh
bvh_of nodes prims materials widest = record {
  nodes = nodes;
  prims = prims;
  materials = materials;
  max_depth = depth_over 0 nodes (set (replicate (length nodes) 0) 0 1) 0;
  max_leaf_prims = widest;
}

unfoldable pub check_arrays : List BvhNode → List BvhPrim → List BvhMaterial → Result Bvh
check_arrays nodes prims materials =
    check_nodes (length nodes) (length prims) 0 nodes 0 >>= λ widest.
    (check_prims (length materials) prims
      >> check_materials materials
      >> (mark_all nodes (replicate (length nodes) false) >>= λ in_degree.
          (check_reached in_degree >> ok (bvh_of nodes prims materials widest))))

unfoldable pub load_bvh : List ℕ → Result Bvh
load_bvh bytes =
    fail_if (ltb (length bytes) header_size) (bvh_error "bvh: shorter than its header")
    >> check_header (header_of bytes)
    >> check_layout (header_of bytes) (length bytes)
    >> (let h = header_of bytes in
        check_arrays (array_of node_size node_of h.node_count (drop h.node_offset bytes))
          (array_of prim_size prim_of h.prim_count (drop h.prim_offset bytes))
          (array_of material_size material_of h.material_count (drop h.material_offset bytes)))
