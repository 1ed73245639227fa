-- ===== src/Coordinator/Server/Frames.antt =====
-- Connections and their frames (`Register`, `OnFrame` and the socket handlers of
-- src/coordinator/net.cpp).
use p2p_gpu.Base.{
  ℕ, ◌+◌, ◌%◌, true, Option, none, some, List, [], ◌∷◌, ◌++◌, map, leb, if◌then◌else◌, u64_mod,
  u32_mod, nat_eq, lookup, insert, remove,
}
use p2p_gpu.Protocol.Ids.{WorkerId, is_nil, id_key}
use p2p_gpu.Protocol.Errors.{rate_limited, make_fatal}
use p2p_gpu.Coordinator.Session.Messages.{Inbound, Outbound, error, Reaction}
use p2p_gpu.Coordinator.Session.Dispatch.{on_message}
use p2p_gpu.Coordinator.Session.{Env, Session, State, on_disconnect}
use p2p_gpu.Coordinator.Server.{
  rejected_frames_no_work, rejected_frames_disconnect, Config, Connection, Server, Sent,
  new_session,
}

abbrev pub counted_frame : Connection → Connection
counted_frame c =
    let n = (c.rejected_frames + 1) % u32_mod in
    record {
      session =
          if leb rejected_frames_no_work n then record c.session { abusive = true } else c.session;
      rejected_frames = n;
    }

module _ {D : Type 0} where
  -- A socket that is open already does not open again.
  abbrev pub opened : Config → ℕ → Option Connection → Server D → Server D
  opened cfg socket (some c) v = v
  opened cfg socket none v = record v {
    connections =
        insert socket (record { session = new_session cfg v.next_conn_id; rejected_frames = 0 })
          v.connections;
    next_conn_id = (v.next_conn_id + 1) % u64_mod;
  }

  abbrev pub put_session : ℕ → Connection → State D → Server D → Server D
  put_session conn c s v = record v {
    shared = s.shared;
    connections = insert conn (record c { session = s.session }) v.connections;
  }

  abbrev pub to_conn : ℕ → List (Outbound D) → Sent D
  to_conn conn out = map (λ m. (conn, m)) out

  -- The relay: a frame for a worker that is not registered goes nowhere.
  unfoldable pub relay : List (WorkerId × Outbound D) → List (WorkerId × ℕ) → Sent D
  relay [] live = []
  relay ((worker, m) ∷ frames) live = elim (lookup worker live) [
    | none ↦ relay frames live
    | some conn ↦ (conn, m) ∷ relay frames live
  ]

  -- `.close`: the worker is unregistered and its session told.
  abbrev pub closed_with : Connection → ℕ → Server D → Server D
  closed_with c conn v = record v {
    shared = (on_disconnect (record { shared = v.shared; session = c.session })).shared;
    live = remove c.session.worker_id v.live;
    connections = remove conn v.connections;
  }

  abbrev pub close_entry : ℕ → Option Connection → Server D → Server D
  close_entry conn none v = v
  close_entry conn (some c) v = closed_with c conn v

  unfoldable pub close_conn : ℕ → Server D → Server D
  close_conn conn v = close_entry conn (lookup conn v.connections) v

  -- `Register`, once the session has an identity.
  abbrev pub registered : ℕ → Session → Server D → Server D
  registered conn s v =
      if is_nil s.worker_id then v else record v { live = insert s.worker_id conn v.live }

  -- The end of `OnFrame`: the replies go out; a fatal error closes, else the worker is registered.
  abbrev pub reacted : ℕ → Connection → State D × Reaction D → Server D → Server D × Sent D
  reacted conn c (s, r) v =
      let v' = put_session conn c s v in
      (
        if r.close then close_conn conn v' else registered conn s.session v',
        relay r.relayed v.live ++ to_conn conn r.replies,
      )

  -- A refused frame: counted, and at the limits the connection gets no work or is closed.
  abbrev pub too_many : Outbound D
  too_many = error (make_fatal rate_limited "too many malformed frames")

  abbrev pub refused : ℕ → Connection → Server D → Server D × Sent D
  refused conn c v =
      let c' = counted_frame c in
      let v' = record v {
        connections = insert conn c' v.connections;
        rejected_frames_total = (v.rejected_frames_total + 1) % u64_mod;
      } in
      if leb rejected_frames_disconnect c'.rejected_frames
      then (close_conn conn v', (conn, too_many) ∷ [])
      else (registered conn c'.session v', [])

  abbrev pub framed :
      Env D
      → ℕ
      → List ℕ
      → Option (Inbound D × List ℕ)
      → ℕ
      → Option Connection
      → Server D
      → Server D × Sent D
  framed env conn token m now_ms none v = (v, [])
  framed env conn token none now_ms (some c) v = refused conn c v
  framed env conn token (some (m, payload)) now_ms (some c) v =
      reacted conn c
        (on_message env token m payload now_ms (record { shared = v.shared; session = c.session }))
        v

  -- A text frame is counted and nothing else.
  abbrev pub text_counted : ℕ → Option Connection → Server D → Server D
  text_counted conn none v = v
  text_counted conn (some c) v = record v {
    connections =
        insert conn (record c { rejected_frames = (c.rejected_frames + 1) % u32_mod })
          v.connections;
  }
