-- ===== src/Protocol/Invariants.antt =====
-- The protocol's invariants as pure checks (src/protocol/invariants.cpp, with the state that they
-- need as arguments).
pub mod Proofs
use p2p_gpu.Base.{
  ℕ, ◌+◌, ◌*◌, ◌-◌, ◌/◌, ◌%◌, List, Option, none, some, Bool, true, false, not, ◌&&◌, ltb, leb,
  ◌==◌, if◌then◌else◌, is_some, any_of, u32_mod, u64_mod,
}
use p2p_gpu.Protocol.Ids.{TaskId, WorkerId, id_eq}
use p2p_gpu.Protocol.Limits.{
  max_params_bytes, max_output_bytes, max_envelope_bytes, chunk_bytes, min_upload_interval_ms,
}
use p2p_gpu.Protocol.Errors.{
  payload_too_large, orphan_payload, lease_not_held, internal, checksum_mismatch, malformed_message,
  Status, ok, err, make_error, fail_if, ◌>>=◌, ◌>>◌,
}

unfoldable pub check_params_size : ℕ → Status
check_params_size n =
    fail_if (ltb max_params_bytes n) (make_error payload_too_large "params exceed kMaxParamsBytes")

unfoldable pub check_output_bytes : ℕ → Status
check_output_bytes n =
    fail_if (ltb max_output_bytes n)
      (make_error payload_too_large "output_spec.bytes exceeds kMaxOutputBytes")

unfoldable pub check_envelope_size : ℕ → Status
check_envelope_size n =
    fail_if (ltb max_envelope_bytes n)
      (make_error payload_too_large "fb_len exceeds kMaxEnvelopeBytes")

unfoldable pub check_single_in_flight_result : Bool → Status
check_single_in_flight_result in_flight =
    fail_if in_flight (make_error orphan_payload "result header already in flight for this task")

unfoldable pub check_lease_held : List TaskId → TaskId → Status
check_lease_held held_leases task_id =
    fail_if (not (any_of (λ t. id_eq t task_id) held_leases))
      (make_error lease_not_held "worker does not hold a lease on this task")

unfoldable pub check_replica_assignment : List WorkerId → WorkerId → Status
check_replica_assignment prior_workers candidate =
    fail_if (any_of (λ w. id_eq w candidate) prior_workers)
      (make_error internal "replica would go to a worker that computed a sibling")

unfoldable pub check_upload_interval : ℕ → Status
check_upload_interval ms =
    fail_if (ltb ms min_upload_interval_ms)
      (make_error internal "upload_interval_ms below kMinUploadIntervalMs")

unfoldable pub check_payload_checksum : ℕ → ℕ → Status
check_payload_checksum declared computed =
    fail_if (not (declared == computed)) (make_error checksum_mismatch "payload checksum mismatch")

unfoldable pub check_payload_length : ℕ → ℕ → Status
check_payload_length declared actual =
    fail_if (not (declared == actual))
      (make_error malformed_message "declared payload_bytes does not match actual payload")

-- The product is a `std::size_t`, 64 bits wide.
unfoldable pub chunk_offset : ℕ → Option ℕ
chunk_offset index =
    if ltb ((u64_mod - 1) / chunk_bytes) index then none else some (index * chunk_bytes % u64_mod)

-- `index + 1U` is computed in 32 bits.
unfoldable pub check_asset_chunk : ℕ → ℕ → ℕ → ℕ → Status
unfolding chunk_offset
check_asset_chunk index total expected_chunks bytes = do
  fail_if (not (total == expected_chunks))
      (make_error malformed_message "chunk total disagrees with expected count")
  fail_if (leb total index) (make_error malformed_message "chunk index out of range")
  fail_if (ltb chunk_bytes bytes) (make_error payload_too_large "chunk larger than kChunkBytes")
  fail_if (ltb bytes chunk_bytes && not ((index + 1) % u32_mod == total))
      (make_error malformed_message "short chunk before the final index")
  fail_if (not (is_some (chunk_offset index)))
      (make_error malformed_message "chunk offset overflows")

-- The parts of a `TaskEnvelope` that its check reads: each may be absent.
pub record TaskEnvelope : Type 0 where
  pub params_size : Option ℕ
  pub output_spec_bytes : Option ℕ
  pub upload_interval_ms : Option ℕ

abbrev when_present : Option ℕ → (ℕ → Status) → Status
when_present none check = ok tt
when_present (some n) check = check n

unfoldable pub check_task_envelope : TaskEnvelope → Status
unfolding check_params_size check_output_bytes check_upload_interval
check_task_envelope e = do
  when_present e.params_size check_params_size
  when_present e.output_spec_bytes check_output_bytes
  when_present e.upload_interval_ms (λ ms. if ms == 0 then ok tt else check_upload_interval ms)
