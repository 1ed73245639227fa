-- ===== src/Coordinator/Session/Messages.antt =====
-- The messages of a connection (protocol/p2pgpu.fbs), with the fields that src/coordinator/session.cpp
-- reads or writes, and what the coordinator does on a message (`Reaction` of
-- include/p2pgpu/coordinator/session.hpp). Texts that a peer controls are lists of bytes.
use p2p_gpu.Base.{ℕ, String, Bool, true, false, Option, List, [], ◌∷◌}
use p2p_gpu.Protocol.Ids.{WorkerId, TaskId, JobId}
use p2p_gpu.Protocol.Errors.{ErrorCode, Error, make_error, make_fatal}
use p2p_gpu.Coordinator.Job.Queries.{AssetSource}
use p2p_gpu.Coordinator.Assets.{Hash32}
use p2p_gpu.Coordinator.Kernels.{KernelSpec}

pub record AdapterInfo : Type 0 where
  pub vendor : List ℕ
  pub device : List ℕ
  pub backend : List ℕ

pub record Hello : Type 0 where
  pub version : ℕ
  pub resume_token : Option (List ℕ)
  pub cached_assets : Option (List (List ℕ))
  pub adapter : Option AdapterInfo

pub record TaskStats : Type 0 where
  pub asset_source : AssetSource
  pub ice_gathered : ℕ
  pub peer_attempts : ℕ
  pub peer_connected : Bool

pub record ResultHeader : Type 0 where
  pub task_id : Option TaskId
  pub payload_bytes : ℕ
  pub checksum : ℕ
  pub units_done : ℕ
  pub sequence : ℕ
  pub stats : Option TaskStats

-- The body of a message from a worker. `no_body` is one of these types with no table under it, true
-- where the type is Hello; `asset_data` is a chunk or a miss, and `coordinator_only` any type that only
-- the coordinator sends.
pub data Inbound (D : Type 0) : Type 0 where
  hello : Hello → Inbound D
  lease_request : ℕ → Option (List (List ℕ)) → Inbound D
  result_header : ResultHeader → Inbound D
  release : Option TaskId → Inbound D
  progress : Option TaskId → Bool → Inbound D
  goodbye : Inbound D
  asset_request : Option Hash32 → ℕ → ℕ → Inbound D
  benchmark_result : D → Inbound D
  throttle : D → Inbound D
  signal : Option WorkerId → Option (List ℕ) → Inbound D
  asset_data : Inbound D
  coordinator_only : Inbound D
  no_body : Bool → Inbound D

-- `TaskEnvelope`, as a grant fills it in.
pub record Envelope : Type 0 where
  pub task_id : TaskId
  pub job_id : JobId
  pub kernel_id : String
  pub seed : ℕ
  pub params : List ℕ
  pub input_ref : Option (Hash32 × ℕ)
  pub start_unit : ℕ
  pub work_units : ℕ
  pub output_bytes : ℕ
  pub lease_ms : ℕ

pub data Outbound (D : Type 0) : Type 0 where
  error : Error → Outbound D
  welcome : WorkerId → List ℕ → List (KernelSpec D × List ℕ) → List String → Outbound D
  benchmark_request : String → ℕ → Outbound D
  task_grant : Envelope → Outbound D
  peer_list : List WorkerId → Outbound D
  revoke : TaskId → Outbound D
  signal_from : WorkerId → List ℕ → Outbound D
  asset_miss : Hash32 → Outbound D
  asset_chunk : Hash32 → ℕ → ℕ → List ℕ → Outbound D

-- The replies, the frames for other workers that are handed to the relay, and whether to close.
pub record Reaction (D : Type 0) : Type 0 where
  pub replies : List (Outbound D)
  pub relayed : List (WorkerId × Outbound D)
  pub close : Bool

module _ {D : Type 0} where
  abbrev pub replying : List (Outbound D) → Reaction D
  replying out = record { replies = out; relayed = []; close = false }

  abbrev pub silence : Reaction D
  silence = replying []

  abbrev pub fatal_error : ErrorCode → String → Reaction D
  fatal_error code message = record {
    replies = error (make_fatal code message) ∷ [];
    relayed = [];
    close = true;
  }

  abbrev pub non_fatal : ErrorCode → String → Reaction D
  non_fatal code message = replying (error (make_error code message) ∷ [])
