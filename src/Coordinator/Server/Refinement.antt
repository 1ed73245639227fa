-- ===== src/Coordinator/Server/Refinement.antt =====
-- How the whole coordinator (src/coordinator/net.cpp over src/coordinator/session.cpp) changes the job
-- manager of src/coordinator/job.cpp.
use p2p_gpu.Base.{
  ℕ, ◌+◌, ◌%◌, ◌≡◌, refl, sym, subst, ◌∙◌, Bool, Option, none, some, List, [], ◌∷◌, leb,
  both_branches, u64_mod, nat_eq, lookup, insert,
}
use p2p_gpu.Protocol.Ids.{WorkerId, TaskId, is_nil, id_key}
use p2p_gpu.Coordinator.Job.{Task}
use p2p_gpu.Coordinator.Job.Calls.{Call, to_sweep, to_release_all, to_clear_dirty, perform, run}
use p2p_gpu.Coordinator.Job.Calls.Made.{Made, no_call, one_call, and_more, run_of_Made}
use p2p_gpu.Coordinator.Job.Calls.Runs.{IsValid, run-IsValid, run-keeps_tasks}
use p2p_gpu.Coordinator.Job.Changes.{TaskStep}
use p2p_gpu.Coordinator.Session.Messages.{Inbound, Reaction}
use p2p_gpu.Coordinator.Session.MessageCalls.{on_disconnect-Keeps, on_message-Keeps}
use p2p_gpu.Coordinator.Session.{Env, Session, State, drain_revokes}
use p2p_gpu.Coordinator.Server.Frames.{
  counted_frame, opened, put_session, close_entry, close_conn, registered, reacted, refused, framed,
  text_counted,
}
use p2p_gpu.Coordinator.Server.Sweep.{
  lose, lose_all, push_to, push_revokes, stall_counted, reset_entry, reset_windows, flushed_if,
  settled, expired, sweep_once,
}
use p2p_gpu.Coordinator.Server.Steps.{step, serve}
use p2p_gpu.Coordinator.Server.{
  rejected_frames_disconnect, Config, Connection, Server, Event, open_connection, text_frame, frame,
  close_connection, sweep, Sent,
}
use p2p_gpu.Coordinator.Fleet.{find_lost}
use p2p_gpu.Coordinator.Session.Dispatch.{on_message}

module _ {D : Type 0} (env : Env D) (cfg : Config) where
  -- From one server to another by calls of the manager.
  pub record Refines (v w : Server D) : Type 0 where
    pub made : Made env.below v.shared.jobs w.shared.jobs

  quiet : {v : Server D} → Refines v v
  quiet = record { made = no_call }

  close_conn-Refines : (conn : ℕ) (v : Server D) → Refines v (close_conn conn v)
  unfolding close_conn
  close_conn-Refines conn v = entry (lookup conn v.connections)
    where
      entry : (c : Option Connection) → Refines v (close_entry conn c v)
      entry none = quiet
      entry (some c) = record {
        made = (on_disconnect-Keeps env (record { shared = v.shared; session = c.session })).made;
      }

  registered-jobs :
      (conn : ℕ) (s : Session) (v w : Server D) → Refines w v → Refines w (registered conn s v)
  registered-jobs conn s v w h =
      both_branches (Refines w) (is_nil s.worker_id) h (record { made = h.made })

  reacted-Refines :
      (conn : ℕ) (c : Connection) (r : State D × Reaction D) (v : Server D)
      → Made env.below v.shared.jobs r.0.shared.jobs
      → Refines v (reacted conn c r v).0
  reacted-Refines conn c (s, r) v h =
      both_branches (Refines v) r.close
        (record { made = and_more h (close_conn-Refines conn (put_session conn c s v)).made })
        (registered-jobs conn s.session (put_session conn c s v) v (record { made = h }))

  refused-Refines : (conn : ℕ) (c : Connection) (v : Server D) → Refines v (refused conn c v).0
  refused-Refines conn c v =
      let v' = record v {
        connections = insert conn (counted_frame c) v.connections;
        rejected_frames_total = (v.rejected_frames_total + 1) % u64_mod;
      } in
      both_branches (λ (r : Server D × Sent D). Refines v r.0)
        (leb rejected_frames_disconnect (counted_frame c).rejected_frames)
        (record { made = (close_conn-Refines conn v').made })
        (registered-jobs conn (counted_frame c).session v' v (record { made = no_call }))

  framed-Refines :
      (conn : ℕ) (token : List ℕ) (m : Option (Inbound D × List ℕ)) (now_ms : ℕ)
      (c : Option Connection) (v : Server D)
      → Refines v (framed env conn token m now_ms c v).0
  framed-Refines conn token m now_ms none v = quiet
  framed-Refines conn token none now_ms (some c) v = refused-Refines conn c v
  framed-Refines conn token (some (m, payload)) now_ms (some c) v =
      let before : State D = record { shared = v.shared; session = c.session } in
      reacted-Refines conn c (on_message env token m payload now_ms before) v
        (on_message-Keeps env token m payload now_ms before).made

  lose_all-Refines : (lost : List WorkerId) (v : Server D) → Refines v (lose_all lost v)
  unfolding lose_all perform
  lose_all-Refines [] v = quiet
  lose_all-Refines (w ∷ ws) v = record {
    made = and_more (one_call (to_release_all w)) (lose_all-Refines ws (lose w v)).made;
  }

  push_to-jobs :
      (conn : ℕ) (c : Option Connection) (acc : Server D × Sent D)
      → (push_to conn c acc).0.shared.jobs ≡ acc.0.shared.jobs
  unfolding drain_revokes
  push_to-jobs conn none acc = refl
  push_to-jobs conn (some c) acc = refl

  push_revokes-jobs :
      (live : List (WorkerId × ℕ)) (acc : Server D × Sent D)
      → (push_revokes live acc).0.shared.jobs ≡ acc.0.shared.jobs
  unfolding push_revokes
  push_revokes-jobs [] acc = refl
  push_revokes-jobs ((worker, conn) ∷ live) acc =
      push_revokes-jobs live (push_to conn (lookup conn acc.0.connections) acc)
      ∙ push_to-jobs conn (lookup conn acc.0.connections) acc

  reset_entry-jobs :
      (conn : ℕ) (c : Option Connection) (v : Server D)
      → (reset_entry conn c v).shared.jobs ≡ v.shared.jobs
  reset_entry-jobs conn none v = refl
  reset_entry-jobs conn (some c) v = refl

  reset_windows-jobs :
      (live : List (WorkerId × ℕ)) (v : Server D)
      → (reset_windows live v).shared.jobs ≡ v.shared.jobs
  unfolding reset_windows
  reset_windows-jobs [] v = refl
  reset_windows-jobs ((worker, conn) ∷ live) v =
      reset_windows-jobs live (reset_entry conn (lookup conn v.connections) v)
      ∙ reset_entry-jobs conn (lookup conn v.connections) v

  flushed_if-Refines : (stored : Bool) (v : Server D) → Refines v (flushed_if stored v)
  unfolding perform
  flushed_if-Refines stored v =
      both_branches (Refines v) stored (record { made = one_call to_clear_dirty }) quiet

  same_jobs : (v w : Server D) → w.shared.jobs ≡ v.shared.jobs → Refines v w
  same_jobs v w e = record { made = subst (Made env.below v.shared.jobs) (sym e) no_call }

  settled-Refines : (stored : Bool) (r : Server D × Sent D) → Refines r.0 (settled stored r).0
  settled-Refines stored (v, out) =
      let v' = stall_counted v in
      record {
        made =
            and_more (same_jobs v (reset_windows v'.live v') (reset_windows-jobs v'.live v')).made
              (flushed_if-Refines stored (reset_windows v'.live v')).made;
      }

  sweep_once-Refines :
      (now_ms : ℕ) (stored : Bool) (v : Server D) → Refines v (sweep_once env cfg now_ms stored v).0
  unfolding sweep_once perform
  sweep_once-Refines now_ms stored v =
      let v' = expired env cfg now_ms v in
      let v'' = lose_all (find_lost now_ms cfg.worker_timeout_ms v'.shared.fleet) v' in
      let pushed = push_revokes v''.live (v'', []) in
      record {
        made = and_more (one_call (to_sweep now_ms)) (
            and_more
              (lose_all-Refines (find_lost now_ms cfg.worker_timeout_ms v'.shared.fleet) v').made
              (and_more (same_jobs v'' pushed.0 (push_revokes-jobs v''.live (v'', []))).made
                (settled-Refines stored pushed).made));
      }

  step-Refines : (e : Event D) (v : Server D) → Refines v (step env cfg e v).0
  unfolding step
  step-Refines (open_connection socket) v = opens (lookup socket v.connections)
    where
      opens : (c : Option Connection) → Refines v (opened cfg socket c v)
      opens none = record { made = no_call }
      opens (some c) = quiet
  step-Refines (text_frame conn) v = counts (lookup conn v.connections)
    where
      counts : (c : Option Connection) → Refines v (text_counted conn c v)
      counts none = quiet
      counts (some c) = record { made = no_call }
  step-Refines (frame conn token m now_ms) v =
      framed-Refines conn token m now_ms (lookup conn v.connections) v
  step-Refines (close_connection conn) v = close_conn-Refines conn v
  step-Refines (sweep now_ms stored) v = sweep_once-Refines now_ms stored v

  serve-Refines : (es : List (Event D)) (v : Server D) → Refines v (serve env cfg es v)
  unfolding serve
  serve-Refines [] v = quiet
  serve-Refines (e ∷ es) v = record {
    made = and_more (step-Refines e v).made (serve-Refines es (step env cfg e v).0).made;
  }

  -- After every series of events, from every state of the server, the job manager is what some sequence
  -- of its own calls makes of the manager before.
  serve-refines :
      (es : List (Event D)) (v : Server D)
      → (cs : List Call) × ((serve env cfg es v).shared.jobs ≡ run env.below cs v.shared.jobs)
  serve-refines es v = run_of_Made (serve-Refines es v).made

  -- From a server whose job manager is valid, no series of events loses a task: the same task stands
  -- under its identifier afterwards, with its job, range and origin, with every worker that was on its
  -- record, and in a state that was reached by transitions alone; the manager is still valid.
  pub serve-keeps_tasks :
      (es : List (Event D)) (v : Server D) (id : TaskId) (t : Task)
      → IsValid v.shared.jobs
      → lookup id v.shared.jobs.tasks ≡ some t
      → IsValid (serve env cfg es v).shared.jobs
        × ((u : Task) × (lookup id (serve env cfg es v).shared.jobs.tasks ≡ some u) × TaskStep t u)
  serve-keeps_tasks es v id t valid e =
      let (cs, q) = serve-refines es v in
      (
        subst IsValid (sym q) (run-IsValid env.below cs v.shared.jobs valid),
        subst (λ m. (u : Task) × (lookup id m.tasks ≡ some u) × TaskStep t u) (sym q)
            (run-keeps_tasks env.below cs v.shared.jobs id t valid e),
      )
