-- ===== src/Coordinator/Server/Steps.antt =====
-- The server (src/coordinator/net.cpp) as a machine: one event, and a series of them.
use p2p_gpu.Base.{List, [], ◌∷◌, nat_eq, lookup}
use p2p_gpu.Protocol.Ids.{id_key}
use p2p_gpu.Coordinator.Session.{Env}
use p2p_gpu.Coordinator.Server.{
  Config, Server, Event, open_connection, text_frame, frame, close_connection, sweep, Sent,
}
use p2p_gpu.Coordinator.Server.Frames.{opened, close_conn, framed, text_counted}
use p2p_gpu.Coordinator.Server.Sweep.{sweep_once}

module _ {D : Type 0} (env : Env D) (cfg : Config) where
  unfoldable pub step : Event D → Server D → Server D × Sent D
  step (open_connection socket) v = (opened cfg socket (lookup socket v.connections) v, [])
  step (text_frame conn) v = (text_counted conn (lookup conn v.connections) v, [])
  step (frame conn token m now_ms) v = framed env conn token m now_ms (lookup conn v.connections) v
  step (close_connection conn) v = (close_conn conn v, [])
  step (sweep now_ms stored) v = sweep_once env cfg now_ms stored v

  -- The server's state after a series of events.
  unfoldable pub serve : List (Event D) → Server D → Server D
  serve [] v = v
  serve (e ∷ es) v = serve es (step e v).0
