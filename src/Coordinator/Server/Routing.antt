-- ===== src/Coordinator/Server/Routing.antt =====
-- The whole coordinator (src/coordinator/net.cpp over src/coordinator/session.cpp): its registry routes to
-- open connections only, after every event.
use p2p_gpu.Base.{
  ℕ, ◌+◌, ◌%◌, ◌≡◌, refl, inl, Bool, Option, none, some, List, [], ◌∷◌, leb, both_branches,
  by_cases, u64_mod, nat_eq, lookup, insert, lookup-insert_self,
}
use p2p_gpu.Coordinator.Server.Registry.{
  SameWorker, IsRouted, put-IsRouted, register-IsRouted, unregister-IsRouted, close-IsRouted,
  open-IsRouted,
}
use p2p_gpu.Protocol.Ids.{WorkerId, is_nil, id_key}
use p2p_gpu.Coordinator.Server.{
  rejected_frames_no_work, rejected_frames_disconnect, Config, Connection, Server, Event,
  open_connection, text_frame, frame, close_connection, sweep, Sent,
}
use p2p_gpu.Coordinator.Server.Frames.{
  counted_frame, opened, put_session, close_entry, close_conn, registered, reacted, refused, framed,
  text_counted,
}
use p2p_gpu.Coordinator.Server.Sweep.{
  window_reset, lose, lose_all, push_to, push_revokes, stall_counted, reset_entry, reset_windows,
  flushed_if, settled, expired, sweep_once,
}
use p2p_gpu.Coordinator.Server.Steps.{step, serve}
use p2p_gpu.Coordinator.Session.{Env, State}
use p2p_gpu.Coordinator.Session.Messages.{Inbound, Reaction}
use p2p_gpu.Coordinator.Session.MessageCalls.{on_message-Keeps}
use p2p_gpu.Coordinator.Session.Dispatch.{on_message}
use p2p_gpu.Coordinator.Fleet.{find_lost}

module _ {D : Type 0} (env : Env D) (cfg : Config) where
  -- The invariant on a server, kept whole for the case splits.
  pub record Routes (v : Server D) : Type 0 where
    pub routed : IsRouted v.live v.connections

  registered-Routes :
      (conn : ℕ) (c : Connection) (v : Server D)
      → lookup conn v.connections ≡ some c
      → Routes v
      → Routes (registered conn c.session v)
  registered-Routes conn c v q h =
      by_cases Routes (is_nil c.session.worker_id) (λ _. h)
        (λ real. record { routed = register-IsRouted h.routed conn c q real })

  close_conn-Routes : (conn : ℕ) (v : Server D) → Routes v → Routes (close_conn conn v)
  unfolding close_conn
  close_conn-Routes conn v h = entry (lookup conn v.connections) refl
    where
      entry :
          (c : Option Connection) → lookup conn v.connections ≡ c → Routes (close_entry conn c v)
      entry none q = h
      entry (some c) q = record { routed = close-IsRouted h.routed conn c q }

  reacted-Routes :
      (conn : ℕ) (c : Connection) (r : State D × Reaction D) (v : Server D)
      → lookup conn v.connections ≡ some c
      → SameWorker c.session r.0.session
      → Routes v
      → Routes (reacted conn c r v).0
  reacted-Routes conn c (s, r) v q same h =
      let c' = record c { session = s.session } in
      let put : Routes (put_session conn c s v) = record {
        routed = put-IsRouted h.routed conn c c' q same;
      } in
      both_branches Routes r.close (close_conn-Routes conn (put_session conn c s v) put) (
        registered-Routes conn c' (put_session conn c s v)
          (lookup-insert_self conn c' v.connections) put)

  counted_frame-SameWorker : (c : Connection) → SameWorker c.session (counted_frame c).session
  counted_frame-SameWorker c =
      both_branches (SameWorker c.session) (leb rejected_frames_no_work _) (inl (refl, refl))
        (inl (refl, refl))

  refused-Routes :
      (conn : ℕ) (c : Connection) (v : Server D)
      → lookup conn v.connections ≡ some c
      → Routes v
      → Routes (refused conn c v).0
  refused-Routes conn c v q h =
      let v' = record v {
        connections = insert conn (counted_frame c) v.connections;
        rejected_frames_total = (v.rejected_frames_total + 1) % u64_mod;
      } in
      let put : Routes v' = record {
        routed = put-IsRouted h.routed conn c (counted_frame c) q (counted_frame-SameWorker c);
      } in
      both_branches (λ (r : Server D × Sent D). Routes r.0)
        (leb rejected_frames_disconnect (counted_frame c).rejected_frames)
        (close_conn-Routes conn v' put)
        (registered-Routes conn (counted_frame c) v'
          (lookup-insert_self conn (counted_frame c) v.connections) put)

  framed-Routes :
      (conn : ℕ) (token : List ℕ) (m : Option (Inbound D × List ℕ)) (now_ms : ℕ)
      (c : Option Connection) (v : Server D)
      → lookup conn v.connections ≡ c
      → Routes v
      → Routes (framed env conn token m now_ms c v).0
  framed-Routes conn token m now_ms none v q h = h
  framed-Routes conn token none now_ms (some c) v q h = refused-Routes conn c v q h
  framed-Routes conn token (some (m, payload)) now_ms (some c) v q h =
      let before : State D = record { shared = v.shared; session = c.session } in
      reacted-Routes conn c (on_message env token m payload now_ms before) v q
        (on_message-Keeps env token m payload now_ms before).session.identity h

  lose_all-Routes : (lost : List WorkerId) (v : Server D) → Routes v → Routes (lose_all lost v)
  unfolding lose_all
  lose_all-Routes [] v h = h
  lose_all-Routes (w ∷ ws) v h =
      lose_all-Routes ws (lose w v) (record { routed = unregister-IsRouted h.routed w })

  push_to-Routes :
      (conn : ℕ) (c : Option Connection) (acc : Server D × Sent D)
      → Routes acc.0
      → Routes (push_to conn c acc).0
  push_to-Routes conn none acc h = h
  push_to-Routes conn (some c) acc h = record { routed = h.routed }

  push_revokes-Routes :
      (live : List (WorkerId × ℕ)) (acc : Server D × Sent D)
      → Routes acc.0
      → Routes (push_revokes live acc).0
  unfolding push_revokes
  push_revokes-Routes [] acc h = h
  push_revokes-Routes ((worker, conn) ∷ live) acc h =
      push_revokes-Routes live (push_to conn (lookup conn acc.0.connections) acc)
        (push_to-Routes conn (lookup conn acc.0.connections) acc h)

  reset_entry-Routes :
      (conn : ℕ) (c : Option Connection) (v : Server D)
      → lookup conn v.connections ≡ c
      → Routes v
      → Routes (reset_entry conn c v)
  reset_entry-Routes conn none v q h = h
  reset_entry-Routes conn (some c) v q h = record {
    routed = put-IsRouted h.routed conn c (window_reset c) q (inl (refl, refl));
  }

  reset_windows-Routes :
      (live : List (WorkerId × ℕ)) (v : Server D) → Routes v → Routes (reset_windows live v)
  unfolding reset_windows
  reset_windows-Routes [] v h = h
  reset_windows-Routes ((worker, conn) ∷ live) v h =
      reset_windows-Routes live (reset_entry conn (lookup conn v.connections) v)
        (reset_entry-Routes conn (lookup conn v.connections) v refl h)

  flushed_if-Routes : (stored : Bool) (v : Server D) → Routes v → Routes (flushed_if stored v)
  flushed_if-Routes stored v h = both_branches Routes stored (record { routed = h.routed }) h

  settled-Routes :
      (stored : Bool) (r : Server D × Sent D) → Routes r.0 → Routes (settled stored r).0
  settled-Routes stored (v, out) h =
      let v' = stall_counted v in
      flushed_if-Routes stored (reset_windows v'.live v')
        (reset_windows-Routes v'.live v' (record { routed = h.routed }))

  sweep_once-Routes :
      (now_ms : ℕ) (stored : Bool) (v : Server D)
      → Routes v
      → Routes (sweep_once env cfg now_ms stored v).0
  unfolding sweep_once
  sweep_once-Routes now_ms stored v h =
      let v' = expired env cfg now_ms v in
      let lost = find_lost now_ms cfg.worker_timeout_ms v'.shared.fleet in
      settled-Routes stored (push_revokes (lose_all lost v').live (lose_all lost v', [])) (
        push_revokes-Routes (lose_all lost v').live (lose_all lost v', [])
          (lose_all-Routes lost v' (record { routed = h.routed })))

  opened-Routes :
      (socket : ℕ) (c : Option Connection) (v : Server D)
      → lookup socket v.connections ≡ c
      → Routes v
      → Routes (opened cfg socket c v)
  opened-Routes socket none v q h = record {
    routed = open-IsRouted h.routed socket _ q (unfold is_nil in refl);
  }
  opened-Routes socket (some c) v q h = h

  text_counted-Routes :
      (conn : ℕ) (c : Option Connection) (v : Server D)
      → lookup conn v.connections ≡ c
      → Routes v
      → Routes (text_counted conn c v)
  text_counted-Routes conn none v q h = h
  text_counted-Routes conn (some c) v q h = record {
    routed = put-IsRouted h.routed conn c _ q (inl (refl, refl));
  }

  step-Routes : (e : Event D) (v : Server D) → Routes v → Routes (step env cfg e v).0
  unfolding step
  step-Routes (open_connection socket) v h =
      opened-Routes socket (lookup socket v.connections) v refl h
  step-Routes (text_frame conn) v h = text_counted-Routes conn (lookup conn v.connections) v refl h
  step-Routes (frame conn token m now_ms) v h =
      framed-Routes conn token m now_ms (lookup conn v.connections) v refl h
  step-Routes (close_connection conn) v h = close_conn-Routes conn v h
  step-Routes (sweep now_ms stored) v h = sweep_once-Routes now_ms stored v h

  serve-Routes : (es : List (Event D)) (v : Server D) → Routes v → Routes (serve env cfg es v)
  unfolding serve
  serve-Routes [] v h = h
  serve-Routes (e ∷ es) v h = serve-Routes es (step env cfg e v).0 (step-Routes e v h)

  -- From a server whose registry leads to open connections only, each with a session that is through
  -- its handshake and has the entry's worker, every series of events ends in such a server: no entry
  -- outlives its connection.
  pub serve-IsRouted :
      (es : List (Event D)) (v : Server D)
      → IsRouted v.live v.connections
      → IsRouted (serve env cfg es v).live (serve env cfg es v).connections
  serve-IsRouted es v h = (serve-Routes es v (record { routed = h })).routed
