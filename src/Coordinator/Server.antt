-- ===== src/Coordinator/Server.antt =====
-- The transport's side of the coordinator (the class `Server` of src/coordinator/net.cpp and
-- include/p2pgpu/coordinator/net.hpp): connections, the registry of live workers, the counting of
-- rejected frames, and the sweep. What uWebSockets does is an event: a connection opens, brings a frame
-- or closes, the timer fires. Parsing and verifying a frame is outside: a frame that is refused is
-- `none`. HTTP routes, metrics and logging are left out.
pub mod Examples
pub mod Frames
pub mod Sweep
pub mod Steps
pub mod Refinement
pub mod Registry
pub mod Routing
use p2p_gpu.Base.{ℕ, String, Bool, true, false, Option, List, [], nat_eq}
use p2p_gpu.Protocol.Ids.{WorkerId, nil}
use p2p_gpu.Coordinator.Quorum.{QuorumConfig}
use p2p_gpu.Coordinator.Session.Messages.{Inbound, Outbound}
use p2p_gpu.Coordinator.Session.{Shared, Session}

-- `kRejectedFramesNoWork`, `kRejectedFramesDisconnect` and the configured limits.
abbrev pub rejected_frames_no_work : ℕ
rejected_frames_no_work = 16

abbrev pub rejected_frames_disconnect : ℕ
rejected_frames_disconnect = 64

pub record Config : Type 0 where
  pub lease_ms : ℕ
  pub worker_timeout_ms : ℕ
  pub speculation : Bool
  pub ice_servers : List String
  pub disable_p2p : Bool
  pub quorum : QuorumConfig

-- `SocketData`.
pub record Connection : Type 0 where
  pub session : Session
  pub rejected_frames : ℕ

pub record Server (D : Type 0) : Type 0 where
  pub shared : Shared D
  pub connections : List (ℕ × Connection)
  pub live : List (WorkerId × ℕ)
  pub next_conn_id : ℕ
  pub rejected_frames_total : ℕ
  pub stalled_sweeps : ℕ

-- A frame is refused, or it carries a message and a payload; a sweep knows whether the store took the
-- dirty rows.
pub data Event (D : Type 0) : Type 0 where
  open_connection : ℕ → Event D
  text_frame : ℕ → Event D
  frame : ℕ → List ℕ → Option (Inbound D × List ℕ) → ℕ → Event D
  close_connection : ℕ → Event D
  sweep : ℕ → Bool → Event D

-- What goes out: on which connection, and the message.
abbrev pub Sent : Type 0 → Type 0
Sent D = List (ℕ × Outbound D)

-- A session as `.open` makes it.
abbrev pub new_session : Config → ℕ → Session
new_session cfg conn_id = record {
  now_ms = 0;
  conn_id = conn_id;
  lease_ms = cfg.lease_ms;
  has_relay = true;
  ice_servers = cfg.ice_servers;
  disable_p2p = cfg.disable_p2p;
  signals_this_window = 0;
  quorum = cfg.quorum;
  abusive = false;
  speculation = cfg.speculation;
  handshaked = false;
  worker_id = nil;
  completed = [];
  in_flight_results = [];
}
