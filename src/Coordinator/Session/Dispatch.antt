-- ===== src/Coordinator/Session/Dispatch.antt =====
-- `Session::OnMessage` and `Session::Dispatch` of src/coordinator/session.cpp.
use p2p_gpu.Base.{ℕ, Bool, true, false, not, ◌&&◌, List, ◌++◌, if◌then◌else◌}
use p2p_gpu.Protocol.Errors.{malformed_message, internal}
use p2p_gpu.Coordinator.Fleet.{touch}
use p2p_gpu.Coordinator.Session.Messages.{
  Inbound, Outbound, Reaction, silence, fatal_error, non_fatal,
}
use p2p_gpu.Coordinator.Session.{
  Env, State, with_fleet, drain_revokes, on_throttle, on_benchmark_result, on_progress, on_release,
  on_goodbye, on_signal,
}
use p2p_gpu.Coordinator.Session.Handshake.{on_hello}
use p2p_gpu.Coordinator.Session.AssetServing.{on_asset_request}
use p2p_gpu.Coordinator.Session.Leasing.{on_lease_request}
use p2p_gpu.Coordinator.Session.Results.{on_result_header}

-- Is the type of the body Hello?
abbrev pub is_hello : {D : Type 0} → Inbound D → Bool
is_hello (Inbound.hello m) = true
is_hello (Inbound.no_body b) = b
is_hello _ = false

module _ {D : Type 0} (env : Env D) where
  -- The handler of a message with its payload; `token` is the text that a new token would have.
  unfoldable pub handle : List ℕ → Inbound D → List ℕ → State D → State D × Reaction D
  handle token (Inbound.hello m) payload s = on_hello env m token s
  handle token (Inbound.lease_request n cached) payload s = on_lease_request env n cached s
  handle token (Inbound.result_header h) payload s = on_result_header env h payload s
  handle token (Inbound.release id) payload s = on_release id s
  handle token (Inbound.progress id renew) payload s = on_progress id renew s
  handle token Inbound.goodbye payload s = on_goodbye s
  handle token (Inbound.asset_request h from to) payload s = on_asset_request env.assets h from to s
  handle token (Inbound.benchmark_result score) payload s = on_benchmark_result env.doubles score s
  handle token (Inbound.throttle level) payload s = on_throttle env.doubles level s
  handle token (Inbound.signal peer bytes) payload s = on_signal peer bytes s
  handle token Inbound.asset_data payload s =
      (s, non_fatal malformed_message "workers do not send asset data to the coordinator")
  handle token Inbound.coordinator_only payload s =
      (s, non_fatal malformed_message "message is coordinator-to-worker only")
  handle token (Inbound.no_body b) payload s = (s, silence)

  -- Every frame of a known worker is a sign of life.
  abbrev pub touched : State D → State D
  touched s =
      if s.session.handshaked
      then with_fleet (touch s.session.worker_id s.session.now_ms s.shared.fleet) s
      else s

  unfoldable pub dispatch : List ℕ → Inbound D → List ℕ → ℕ → State D → State D × Reaction D
  dispatch token m payload now_ms s =
      let s' = record s { session = record s.session { now_ms = now_ms } } in
      if not s.session.handshaked && not (is_hello m)
      then (s', fatal_error internal "first message must be Hello")
      else handle token m payload (touched s')

  -- The revokes that wait for this worker ride along.
  abbrev pub appended : Reaction D → State D × List (Outbound D) → State D × Reaction D
  appended r (s, frames) = (s, record r { replies = r.replies ++ frames })

  abbrev pub with_revokes : State D × Reaction D → State D × Reaction D
  with_revokes (s, r) = if s.session.handshaked then appended r (drain_revokes s) else (s, r)

  unfoldable pub on_message : List ℕ → Inbound D → List ℕ → ℕ → State D → State D × Reaction D
  on_message token m payload now_ms s = with_revokes (dispatch token m payload now_ms s)
