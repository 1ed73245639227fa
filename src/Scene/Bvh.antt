-- ===== src/Scene/Bvh.antt =====
-- Files of bounding volume hierarchies (src/scene/bvh.cpp, include/p2pgpu/scene/bvh.hpp): their layout, and
-- the reading of their sections. A float is its bit pattern; padding is left out.
pub mod Load
pub mod Bounds
pub mod Marks
pub mod Tree
mod Examples
use p2p_gpu.Base.{ℕ, zero, suc, ◌+◌, ◌/◌, ◌%◌, Bool, not, List, [], ◌∷◌, ◌==◌, drop}
use p2p_gpu.Coordinator.Compositor.{word_at}

-- `kBvhMagic`, `kBvhVersion` and the limits.
abbrev pub bvh_magic : ℕ
bvh_magic = 0x56423250

abbrev pub bvh_version : ℕ
bvh_version = 1

abbrev pub max_bvh_nodes : ℕ
max_bvh_nodes = 8_388_608

abbrev pub max_bvh_prims : ℕ
max_bvh_prims = 4_194_304

abbrev pub max_bvh_materials : ℕ
max_bvh_materials = 65_536

-- The sizes of the structures in the file.
abbrev pub header_size : ℕ
header_size = 64

abbrev pub node_size : ℕ
node_size = 32

abbrev pub prim_size : ℕ
prim_size = 64

abbrev pub material_size : ℕ
material_size = 32

pub record BvhHeader : Type 0 where
  pub magic : ℕ
  pub version : ℕ
  pub node_count : ℕ
  pub prim_count : ℕ
  pub material_count : ℕ
  pub node_offset : ℕ
  pub prim_offset : ℕ
  pub material_offset : ℕ
  pub total_bytes : ℕ
  pub reserved : List ℕ

pub record BvhNode : Type 0 where
  pub bmin : List ℕ
  pub left_or_first : ℕ
  pub bmax : List ℕ
  pub count_and_leaf : ℕ

pub record BvhPrim : Type 0 where
  pub kind : ℕ
  pub material : ℕ
  pub a : List ℕ
  pub radius : ℕ
  pub b : List ℕ
  pub c : List ℕ

pub record BvhMaterial : Type 0 where
  pub albedo : List ℕ
  pub fuzz : ℕ
  pub kind : ℕ

pub record Bvh : Type 0 where
  pub nodes : List BvhNode
  pub prims : List BvhPrim
  pub materials : List BvhMaterial
  pub max_depth : ℕ
  pub max_leaf_prims : ℕ

-- The words from an offset on, n of them.
unfoldable pub words_from : ℕ → ℕ → List ℕ → List ℕ
words_from zero at bytes = []
words_from (suc n) at bytes = word_at bytes at ∷ words_from n (at + 4) bytes

unfoldable pub header_of : List ℕ → BvhHeader
header_of bytes = record {
  magic = word_at bytes 0;
  version = word_at bytes 4;
  node_count = word_at bytes 8;
  prim_count = word_at bytes 12;
  material_count = word_at bytes 16;
  node_offset = word_at bytes 20;
  prim_offset = word_at bytes 24;
  material_offset = word_at bytes 28;
  total_bytes = word_at bytes 32;
  reserved = words_from 7 36 bytes;
}

abbrev pub node_of : List ℕ → BvhNode
node_of bytes = record {
  bmin = words_from 3 0 bytes;
  left_or_first = word_at bytes 12;
  bmax = words_from 3 16 bytes;
  count_and_leaf = word_at bytes 28;
}

abbrev pub prim_of : List ℕ → BvhPrim
prim_of bytes = record {
  kind = word_at bytes 0;
  material = word_at bytes 4;
  a = words_from 3 16 bytes;
  radius = word_at bytes 28;
  b = words_from 3 32 bytes;
  c = words_from 3 48 bytes;
}

abbrev pub material_of : List ℕ → BvhMaterial
material_of bytes = record {
  albedo = words_from 3 0 bytes;
  fuzz = word_at bytes 12;
  kind = word_at bytes 16;
}

-- An array of n structures of a size.
unfoldable pub array_of : {A : Type 0} → ℕ → (List ℕ → A) → ℕ → List ℕ → List A
array_of size read zero bytes = []
array_of size read (suc n) bytes = read bytes ∷ array_of size read n (drop size bytes)

-- `kLeafFlag` is the highest bit; the rest is a leaf's count.
abbrev pub is_leaf : BvhNode → Bool
is_leaf n = not (n.count_and_leaf / 0x80000000 % 2 == 0)

abbrev pub count_of : BvhNode → ℕ
count_of n = n.count_and_leaf % 0x80000000
