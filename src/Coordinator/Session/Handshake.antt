-- ===== src/Coordinator/Session/Handshake.antt =====
-- `Session::OnHello` of src/coordinator/session.cpp. The text of a new token, which comes from the random
-- device, is an argument.
use p2p_gpu.Base.{
  ℕ, true, not, Option, none, some, List, [], ◌∷◌, map, ltb, ◌==◌, if◌then◌else◌, take,
}
use p2p_gpu.Protocol.Ids.{WorkerId}
use p2p_gpu.Protocol.Errors.{version_mismatch, malformed_message}
use p2p_gpu.Protocol.Limits.{protocol_version}
use p2p_gpu.Coordinator.Params.{build_output_init}
use p2p_gpu.Coordinator.Reputation.{ReputationTable, prior, mint_token, resolve_token}
use p2p_gpu.Coordinator.Fleet.{WorkerRecord, join, adjust}
use p2p_gpu.Coordinator.Assets.{adopt_cached_assets}
use p2p_gpu.Coordinator.Kernels.{KernelSpec}
use p2p_gpu.Coordinator.Session.Messages.{
  AdapterInfo, Hello, welcome, benchmark_request, Reaction, replying, fatal_error, non_fatal,
}
use p2p_gpu.Coordinator.Session.{Env, State}

abbrev pub max_label : ℕ
max_label = 64

-- A label from the network: cut off, its control characters replaced.
unfoldable pub clean_label : List ℕ → List ℕ
clean_label text = map (λ c. if ltb c 32 then b'?' else c) (take max_label text)

-- `resume_token` resolved by the table, where there are both.
abbrev pub resumed : {D : Type 0} → Option (List ℕ) → Option (ReputationTable D) → Option WorkerId
resumed (some token) (some reputation) = resolve_token token reputation
resumed _ _ = none

abbrev pub or_fresh : Option WorkerId → WorkerId → WorkerId
or_fresh none fresh = fresh
or_fresh (some prior) fresh = prior

module _ {D : Type 0} (env : Env D) where
  -- The worker's identity: that of its token, or a new one for the connection.
  abbrev pub identity : Hello → State D → WorkerId
  identity m s =
      or_fresh (resumed m.resume_token s.shared.reputation)
        (record { hi = s.session.conn_id; lo = 0 })

  abbrev pub labelled : Option AdapterInfo → WorkerRecord D → WorkerRecord D
  labelled none r = r
  labelled (some a) r = record r {
    adapter_vendor = clean_label a.vendor;
    adapter_device = clean_label a.device;
    adapter_backend = clean_label a.backend;
  }

  abbrev pub enroll : WorkerId → Hello → State D → State D
  enroll id m s = record s {
    shared = record s.shared {
      fleet =
          adjust id
            (λ r.
              labelled m.adapter (record r { cached_assets = adopt_cached_assets m.cached_assets }))
            (join env.doubles id s.session.conn_id s.session.now_ms s.shared.fleet);
    };
    session = record s.session { handshaked = true; worker_id = id };
  }

  -- `MintToken`, where there is a table; no token otherwise.
  abbrev pub minted_for :
      WorkerId → List ℕ → Option (ReputationTable D) → Option (ReputationTable D)
  minted_for id token none = none
  minted_for id token (some reputation) = some (mint_token id token reputation)

  abbrev pub token_of : List ℕ → Option (ReputationTable D) → List ℕ
  token_of token none = []
  token_of token (some reputation) = token

  abbrev pub descriptors : List (KernelSpec D × List ℕ)
  descriptors = map (λ (id, spec). (spec, build_output_init spec)) env.kernels

  abbrev pub welcomed : WorkerId → List ℕ → State D → State D × Reaction D
  welcomed id token s = (
    record s { shared = record s.shared { reputation = minted_for id token s.shared.reputation } },
    replying (
        welcome id (token_of token s.shared.reputation) descriptors s.session.ice_servers
        ∷ benchmark_request "calibrate_v1" 200
        ∷ []),
  )

  unfoldable pub on_hello : Hello → List ℕ → State D → State D × Reaction D
  on_hello m token s =
      if s.session.handshaked
      then (s, non_fatal malformed_message "duplicate Hello")
      else if not (m.version == protocol_version)
      then (s, fatal_error version_mismatch "protocol version mismatch")
      else welcomed (identity m s) token (enroll (identity m s) m s)
