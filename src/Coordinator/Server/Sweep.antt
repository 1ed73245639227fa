-- ===== src/Coordinator/Server/Sweep.antt =====
-- `Server::Sweep` of src/coordinator/net.cpp.
use p2p_gpu.Base.{
  ℕ, ◌+◌, ◌%◌, Bool, not, ◌&&◌, Option, none, some, List, [], ◌∷◌, ◌++◌, leb, ◌==◌, if◌then◌else◌,
  u32_mod, length, get_or, nat_eq, lookup, insert, remove,
}
use p2p_gpu.Protocol.Ids.{WorkerId, id_key}
use p2p_gpu.Coordinator.Job.Queries.{state_index, count_by_state, clear_dirty, all_complete}
use p2p_gpu.Coordinator.Job.Lease.{Expiry, sweep_expired_leases, release_all_held_by}
use p2p_gpu.Coordinator.TaskState.{leased}
use p2p_gpu.Coordinator.Sizer.{update_correction}
use p2p_gpu.Coordinator.Fleet.{WorkerRecord, Fleet, leave, adjust, find_lost}
use p2p_gpu.Coordinator.Session.Messages.{Outbound}
use p2p_gpu.Coordinator.Session.{Env, Session, State, drain_revokes}
use p2p_gpu.Coordinator.Server.{Config, Connection, Server, Sent}
use p2p_gpu.Coordinator.Server.Frames.{to_conn}

abbrev pub window_reset : Connection → Connection
window_reset c = record c { session = record c.session { signals_this_window = 0 } }

module _ {D : Type 0} where
  -- Workers that were not heard from: their leases go back, they leave and are unregistered.
  abbrev pub lose : WorkerId → Server D → Server D
  lose worker v = record v {
    shared = record v.shared {
      jobs = (release_all_held_by worker v.shared.jobs).0;
      fleet = leave worker v.shared.fleet;
    };
    live = remove worker v.live;
  }

  unfoldable pub lose_all : List WorkerId → Server D → Server D
  lose_all [] v = v
  lose_all (w ∷ ws) v = lose_all ws (lose w v)

  -- The revokes of the live workers, pushed on their connections.
  abbrev pub drained :
      ℕ → Session → State D × List (Outbound D) → Server D × Sent D → Server D × Sent D
  drained conn session (s, frames) (v, out) =
      (record v { shared = s.shared }, out ++ to_conn conn frames)

  abbrev pub push_to : ℕ → Option Connection → Server D × Sent D → Server D × Sent D
  push_to conn none acc = acc
  push_to conn (some c) acc =
      drained conn c.session (drain_revokes (record { shared = acc.0.shared; session = c.session }))
        acc

  unfoldable pub push_revokes : List (WorkerId × ℕ) → Server D × Sent D → Server D × Sent D
  push_revokes [] acc = acc
  push_revokes ((worker, conn) ∷ live) acc =
      push_revokes live (push_to conn (lookup conn acc.0.connections) acc)

  -- Work is outstanding, workers are connected and nothing is leased.
  abbrev pub is_stalled : Server D → Bool
  is_stalled v =
      leb 1 (length v.live)
      && not (all_complete v.shared.jobs)
      && get_or (count_by_state v.shared.jobs) (state_index leased) 0 == 0

  abbrev pub stall_counted : Server D → Server D
  stall_counted v = record v {
    stalled_sweeps = if is_stalled v then (v.stalled_sweeps + 1) % u32_mod else 0;
  }

  abbrev pub reset_entry : ℕ → Option Connection → Server D → Server D
  reset_entry conn none v = v
  reset_entry conn (some c) v = record v {
    connections = insert conn (window_reset c) v.connections;
  }

  unfoldable pub reset_windows : List (WorkerId × ℕ) → Server D → Server D
  reset_windows [] v = v
  reset_windows ((worker, conn) ∷ live) v =
      reset_windows live (reset_entry conn (lookup conn v.connections) v)

  -- The rows that the store has taken are clean.
  abbrev pub flushed_if : Bool → Server D → Server D
  flushed_if stored v =
      if stored
      then record v { shared = record v.shared { jobs = clear_dirty v.shared.jobs } }
      else v

  abbrev pub settled : Bool → Server D × Sent D → Server D × Sent D
  settled stored (v, out) =
      let v' = stall_counted v in (flushed_if stored (reset_windows v'.live v'), out)

module _ {D : Type 0} (env : Env D) (cfg : Config) where
  -- D-0044: an expiry is evidence about the worker's speed.
  abbrev pub expiry_lesson : WorkerRecord D → WorkerRecord D
  expiry_lesson w = if not (env.doubles.is_positive w.predicted_ms) then w else record w {
    correction =
        update_correction env.doubles w.correction w.predicted_ms (env.doubles.of_nat cfg.lease_ms);
    predicted_ms = env.doubles.zero_d;
  }

  unfoldable pub learn : List Expiry → Fleet D → Fleet D
  learn [] fleet = fleet
  learn (e ∷ es) fleet = learn es (adjust e.holder expiry_lesson fleet)

  abbrev pub expired : ℕ → Server D → Server D
  expired now_ms v =
      let (m, expiries) = sweep_expired_leases now_ms v.shared.jobs in
      record v { shared = record v.shared { jobs = m; fleet = learn expiries v.shared.fleet } }

  unfoldable pub sweep_once : ℕ → Bool → Server D → Server D × Sent D
  sweep_once now_ms stored v =
      let v' = expired now_ms v in
      let v'' = lose_all (find_lost now_ms cfg.worker_timeout_ms v'.shared.fleet) v' in
      settled stored (push_revokes v''.live (v'', []))
