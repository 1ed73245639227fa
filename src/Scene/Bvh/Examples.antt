-- ===== src/Scene/Bvh/Examples.antt =====
-- The tests of src/scene/bvh.cpp: a file of three nodes, and files that are not trees.
use p2p_gpu.Base.{ℕ, ◌/◌, ◌%◌, ◌≡◌, refl, Bool, true, false, List, [], ◌∷◌}
use p2p_gpu.Protocol.Errors.{Result, ok, err}
use p2p_gpu.Scene.Bvh.{BvhNode, Bvh, words_from, header_of, array_of}
use p2p_gpu.Scene.Bvh.Load.{
  check_header, check_layout, check_node, check_nodes, check_prims, check_materials, mark_children,
  mark_all, check_reached, depth_over, check_arrays, load_bvh,
}
use p2p_gpu.Scene.Bvh.Tree.{IsTree, load_bvh-IsTree}

-- A word as it stands in a file, the lowest byte first.
abbrev bytes_of : List ℕ → List ℕ
bytes_of [] = []
bytes_of (w ∷ words) =
    w % 256 ∷ w / 256 % 256 ∷ w / 65536 % 256 ∷ w / 16777216 % 256 ∷ bytes_of words

-- A root with two leaves, which share one primitive of one material; `left` is the root's first child.
abbrev file : ℕ → List ℕ
file left = bytes_of (
    0x56423250 ∷ 1 ∷ 3 ∷ 1 ∷ 1 ∷ 64 ∷ 160 ∷ 224 ∷ 256 ∷ 0 ∷ 0 ∷ 0 ∷ 0 ∷ 0 ∷ 0 ∷ 0 ∷ 0 ∷ 0 ∷ 0 ∷ left
    ∷ 0 ∷ 0 ∷ 0 ∷ 0 ∷ 0 ∷ 0 ∷ 0 ∷ 0 ∷ 0 ∷ 0 ∷ 0 ∷ 0x80000001 ∷ 0 ∷ 0 ∷ 0 ∷ 0 ∷ 0 ∷ 0 ∷ 0
    ∷ 0x80000001 ∷ 1 ∷ 0 ∷ 0 ∷ 0 ∷ 0 ∷ 0 ∷ 0 ∷ 0 ∷ 0 ∷ 0 ∷ 0 ∷ 0 ∷ 0 ∷ 0 ∷ 0 ∷ 0 ∷ 0 ∷ 0 ∷ 0 ∷ 0 ∷ 2
    ∷ 0 ∷ 0 ∷ 0 ∷ [])

abbrev zeros : List ℕ
zeros = 0 ∷ 0 ∷ 0 ∷ []

abbrev node : ℕ → ℕ → BvhNode
node left count = record {
  bmin = zeros;
  left_or_first = left;
  bmax = zeros;
  count_and_leaf = count;
}

abbrev small_tree : Bvh
small_tree = record {
  nodes = node 1 0 ∷ node 0 0x80000001 ∷ node 0 0x80000001 ∷ [];
  prims = record { kind = 1; material = 0; a = zeros; radius = 0; b = zeros; c = zeros } ∷ [];
  materials = record { albedo = zeros; fuzz = 0; kind = 2 } ∷ [];
  max_depth = 2;
  max_leaf_prims = 1;
}

abbrev is_err : Result Bvh → Bool
is_err (ok b) = false
is_err (err e) = true

accepted : load_bvh (file 1) ≡ ok small_tree
unfolding load_bvh check_header header_of words_from check_layout check_arrays check_nodes array_of
    check_node check_prims check_materials mark_all mark_children check_reached depth_over
accepted = refl

root_as_child : is_err (load_bvh (file 0)) ≡ true
unfolding load_bvh check_header header_of words_from check_layout check_arrays check_nodes array_of
    check_node
root_as_child = refl

child_outside : is_err (load_bvh (file 2)) ≡ true
unfolding load_bvh check_header header_of words_from check_layout check_arrays check_nodes array_of
    check_node
child_outside = refl

load_bvh-IsTree_example : IsTree small_tree
load_bvh-IsTree_example = load_bvh-IsTree (file 1) small_tree accepted
