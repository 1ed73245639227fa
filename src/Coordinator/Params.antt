-- ===== src/Coordinator/Params.antt =====
-- The parameter blocks of the kernels (src/coordinator/params.cpp, include/p2pgpu/kernels/params.hpp and
-- pathtrace_params.hpp): what `BuildParams` writes for a task, and the bytes that a result buffer starts
-- with. A block is the list of its 32-bit words, written low byte first as on the little-endian hosts
-- that the source is built for; a float stands as its bit pattern.
use p2p_gpu.Base.{
  ℕ, ◌+◌, ◌*◌, ◌/◌, ◌%◌, ◌^◌, bit_and, bit_xor, String, Option, none, some, List, [], ◌∷◌, ltb,
  ◌==◌, if◌then◌else◌, u64_mod, u32_mod, get_or, string_eq,
}
use p2p_gpu.Protocol.Errors.{internal, make_error, Result, ok, err}
use p2p_gpu.Coordinator.Job.{Task, RenderConfig, Job}
use p2p_gpu.Coordinator.Composite.{Tile, tile_at}
use p2p_gpu.Coordinator.Kernels.{KernelSpec}

abbrev pub shr : ℕ → ℕ → ℕ
shr x k = x / 2 ^ k

-- `Mix32`: the arithmetic wraps at 64 bits, the result is the high half.
unfoldable pub mix32 : ℕ → ℕ
mix32 n =
    let x = (n + 0x9E3779B97F4A7C15) % u64_mod in
    let y = (bit_xor x (shr x 30) * 0xBF58476D1CE4E5B9) % u64_mod in
    let z = (bit_xor y (shr y 27) * 0x94D049BB133111EB) % u64_mod in shr (bit_xor z (shr z 31)) 32

-- `ToBytes` of a struct of 32-bit words.
unfoldable pub to_bytes : List ℕ → List ℕ
to_bytes [] = []
to_bytes (w ∷ ws) =
    (w % 256) ∷ (w / 256 % 256) ∷ (w / 65_536 % 256) ∷ (w / 16_777_216 % 256) ∷ to_bytes ws

-- `BruteSearchParams`, field by field.
abbrev pub brute_search_params : Job → Task → List ℕ
unfolding mix32
brute_search_params j t =
    (t.start_unit % u32_mod)
    ∷ (t.unit_count % u32_mod)
    ∷ shr t.start_unit 32
    ∷ mix32 (bit_xor j.seed t.start_unit)
    ∷ bit_and (mix32 j.seed) 0xFFF
    ∷ 0xFFF
    ∷ 8
    ∷ 0
    ∷ []

-- `BruteSearchResult` at its default: no match, and the identity of the minimum.
abbrev pub brute_search_result : List ℕ
brute_search_result = 0 ∷ 0xFFFFFFFF ∷ 0 ∷ 0 ∷ 0 ∷ 0 ∷ 0 ∷ 0 ∷ []

-- Three components of a vector.
abbrev pub vec3 : List ℕ → List ℕ → List ℕ
vec3 v rest = get_or v 0 0 ∷ get_or v 1 0 ∷ get_or v 2 0 ∷ rest

-- `PathTraceParams`, in the order of its offsets.
abbrev pub path_trace_params : Job → RenderConfig → Task → Tile → List ℕ
unfolding mix32
path_trace_params j r t tile =
    (t.start_unit % r.samples_per_tile % u32_mod)
    ∷ (t.unit_count % u32_mod)
    ∷ tile.x
    ∷ tile.y
    ∷ tile.w
    ∷ tile.h
    ∷ r.grid.image_w
    ∷ r.grid.image_h
    ∷ vec3 r.cam_origin (
        mix32 j.seed
        ∷ vec3 r.cam_lower_left (
            r.max_bounces
            ∷ vec3 r.cam_horizontal (
                r.node_count
                ∷ vec3 r.cam_vertical
                    (r.prim_count ∷ r.material_count ∷ r.rr_start_bounce ∷ 0 ∷ 0 ∷ []))))

abbrev pub calibrate_params : Job → Task → List ℕ
unfolding mix32
calibrate_params j t = 2048 ∷ mix32 (bit_xor j.seed t.start_unit) ∷ []

-- `MakeError(ErrorCode::Internal, message)`.
abbrev pub refuse : String → Result (List ℕ)
refuse message = err (make_error internal message)

abbrev pub build_for_tile : Job → RenderConfig → Task → Option Tile → Result (List ℕ)
unfolding to_bytes
build_for_tile j r t none = refuse "task maps to a tile outside the render grid"
build_for_tile j r t (some tile) =
    if ltb r.samples_per_tile ((t.start_unit % r.samples_per_tile + t.unit_count) % u64_mod)
    then refuse "task spans more than one tile"
    else ok (to_bytes (path_trace_params j r t tile))

unfoldable pub build_path_trace : Job → Task → Option RenderConfig → Result (List ℕ)
unfolding tile_at to_bytes
build_path_trace j t none = refuse "pathtrace task on a job with no render config"
build_path_trace j t (some r) =
    if r.samples_per_tile == 0
    then refuse "render job has 0 samples per tile"
    else build_for_tile j r t (tile_at r.grid (t.start_unit / r.samples_per_tile % u32_mod))

unfoldable pub build_params : {D : Type 0} → KernelSpec D → Job → Task → Result (List ℕ)
unfolding build_path_trace to_bytes
build_params spec j t =
    if string_eq.beq spec.param_layout "BruteSearchParams"
    then if ltb 0xFFFFFFFF t.unit_count
      then refuse "task exceeds what BruteSearchParams can express"
      else ok (to_bytes (brute_search_params j t))
    else if string_eq.beq spec.param_layout "PathTraceParams"
    then build_path_trace j t j.render
    else if string_eq.beq spec.param_layout "CalibrateParams"
    then ok (to_bytes (calibrate_params j t))
    else refuse "no params builder for this layout"

unfoldable pub build_output_init : {D : Type 0} → KernelSpec D → List ℕ
unfolding to_bytes
build_output_init spec =
    if string_eq.beq spec.param_layout "BruteSearchParams" then to_bytes brute_search_result else []
