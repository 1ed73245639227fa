-- ===== src/Protocol/Errors.antt =====
-- The error model of the trust boundary (include/p2pgpu/protocol/error.hpp; the codes are those of
-- protocol/p2pgpu.fbs).
use p2p_gpu.Base.{String, Bool, true, false}

pub data ErrorCode : Type 0 where
  version_mismatch unknown_kernel malformed_message orphan_payload payload_too_large : ErrorCode
  checksum_mismatch lease_not_held rate_limited blacklisted internal : ErrorCode

pub record Error : Type 0 where
  pub code : ErrorCode
  pub message : String
  pub fatal : Bool

-- `MakeError` with its default `fatal = false`, and with `fatal = true`.
abbrev pub make_error : ErrorCode → String → Error
make_error c m = record { code = c; message = m; fatal = false }

abbrev pub make_fatal : ErrorCode → String → Error
make_fatal c m = record { code = c; message = m; fatal = true }

pub data Result {ℓ} (A : Type ℓ) : Type ℓ where
  ok : A → Result A
  err : Error → Result A

abbrev pub Status : Type 0
Status = Result (Unit {0})

abbrev pub has_value {ℓ} : {A : Type ℓ} → Result A → Bool
has_value (ok a) = true
has_value (err e) = false

-- `if (Status s = check(); !s) { return s.error(); }`, and the same for a result.
infixl 5 ◌>>◌ ◌>>=◌
abbrev pub ◌>>◌ {κ} : {B : Type κ} → Status → Result B → Result B
ok tt >> rest = rest
err e >> rest = err e

abbrev pub ◌>>=◌ {ℓ κ} : {A : Type ℓ} {B : Type κ} → Result A → (A → Result B) → Result B
ok a >>= next = next a
err e >>= next = err e

-- `if (test) return MakeError(code, message);`
abbrev pub fail_if : Bool → Error → Status
fail_if true e = err e
fail_if false e = ok tt
