-- ===== src/Protocol/Limits.antt =====
-- The hard limits on sizes that a peer controls (include/p2pgpu/protocol/limits.hpp).
use p2p_gpu.Base.{ℕ, ◌*◌}

abbrev pub protocol_version : ℕ
protocol_version = 1

-- "P2GP".
abbrev pub frame_magic : ℕ
frame_magic = 0x50324750

abbrev pub header_bytes : ℕ
header_bytes = 16

abbrev pub frame_alignment : ℕ
frame_alignment = 8

abbrev pub max_envelope_bytes : ℕ
max_envelope_bytes = 64 * 1024

abbrev pub max_params_bytes : ℕ
max_params_bytes = 4 * 1024

abbrev pub max_output_bytes : ℕ
max_output_bytes = 8 * 1024 * 1024

abbrev pub chunk_bytes : ℕ
chunk_bytes = 16 * 1024

abbrev pub max_asset_bytes : ℕ
max_asset_bytes = 256 * 1024 * 1024

abbrev pub min_upload_interval_ms : ℕ
min_upload_interval_ms = 500
