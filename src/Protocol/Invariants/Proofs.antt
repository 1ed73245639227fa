-- ===== src/Protocol/Invariants/Proofs.antt =====
-- What the checks guarantee.
use p2p_gpu.Base.{ℕ, ◌+◌, ◌*◌, ◌≤◌, ◌<◌, ◌≡◌, ◌↔◌, ◌⊎◌, some, arith, u64_mod, u32_mod}
use p2p_gpu.Protocol.Errors.{ok}
use p2p_gpu.Protocol.Limits.{
  max_params_bytes, max_output_bytes, chunk_bytes, min_upload_interval_ms,
}
use p2p_gpu.Protocol.Invariants.{chunk_offset, check_asset_chunk, TaskEnvelope, check_task_envelope}

-- An asset chunk passes exactly when it is one of the expected number of chunks, and is full or the
-- last one and short.
pub check_asset_chunk_iff :
    (index total expected bytes : ℕ)
    → index < u32_mod
    → total < u32_mod
    → (check_asset_chunk index total expected bytes ≡ ok tt) ↔ (
        (total ≡ expected)
        × (index < total)
        × (bytes ≤ chunk_bytes)
        × ((bytes ≡ chunk_bytes) ⊎ (index + 1 ≡ total)))
unfolding check_asset_chunk
check_asset_chunk_iff index total expected bytes hi ht = ground arith

-- For every 32-bit index the offset exists, is the exact product, and leaves room for a whole chunk
-- in a `std::size_t`.
pub chunk_offset_exact :
    (index : ℕ)
    → index < u32_mod
    → (chunk_offset index ≡ some (index * chunk_bytes))
      × (index * chunk_bytes + chunk_bytes < u64_mod)
unfolding chunk_offset
chunk_offset_exact index h = (ground arith, omega arith)

-- An envelope passes exactly when each part that is present is within its limit, a zero upload
-- interval standing for "not accumulating".
pub check_task_envelope_iff :
    (e : TaskEnvelope)
    → (check_task_envelope e ≡ ok tt) ↔ (
        ((n : ℕ) → e.params_size ≡ some n → n ≤ max_params_bytes)
        × ((n : ℕ) → e.output_spec_bytes ≡ some n → n ≤ max_output_bytes)
        × ((n : ℕ) → e.upload_interval_ms ≡ some n → (n ≡ 0) ⊎ (min_upload_interval_ms ≤ n)))
unfolding check_task_envelope
check_task_envelope_iff e = grind arith
