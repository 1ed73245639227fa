-- ===== src/Coordinator/Session/MessageCalls.antt =====
-- Whatever a connection sends (src/coordinator/session.cpp), the job manager changes by its calls alone.
use p2p_gpu.Base.{
  ℕ, ◌-◌, min, ◌≡◌, refl, ◌∙◌, inl, inr, Bool, false, not, ◌&&◌, ◌||◌, Option, none, some, List,
  ltb, leb, ◌==◌, both_branches, by_cases, u32_mod, lookup,
}
use p2p_gpu.Protocol.Ids.{TaskId, id_key}
use p2p_gpu.Coordinator.Job.Lease.{check_lease, release_all_held_by}
use p2p_gpu.Coordinator.Job.Calls.{to_renew_lease, to_release, to_release_all, perform}
use p2p_gpu.Coordinator.Job.Calls.Made.{no_call, one_call}
use p2p_gpu.Coordinator.Fleet.{WorkerRecord}
use p2p_gpu.Coordinator.Assets.{Hash32, address_of}
use p2p_gpu.Coordinator.Session.Messages.{Hello, Inbound, Reaction}
use p2p_gpu.Coordinator.Session.Handshake.{identity, enroll, welcomed, on_hello}
use p2p_gpu.Coordinator.Session.AssetServing.{total_chunks, find_in, serve_blob, on_asset_request}
use p2p_gpu.Coordinator.Session.LeasingCalls.{
  Keeps, ByCalls, still, also, doing, on_lease_request-Keeps,
}
use p2p_gpu.Coordinator.Session.ResultCalls.{on_result_header-Keeps}
use p2p_gpu.Coordinator.Session.Dispatch.{
  is_hello, handle, touched, dispatch, with_revokes, on_message,
}
use p2p_gpu.Coordinator.Session.{
  Env, Shared, Session, State, drain_revokes, on_throttle, score_known, on_benchmark_result,
  on_progress, on_release, on_goodbye, on_disconnect, on_signal,
}
use p2p_gpu.Protocol.Errors.{has_value}
use p2p_gpu.Protocol.Limits.{protocol_version}

module _ {D : Type 0} (env : Env D) where
  -- A branch of a handler.
  quiet : {s s' : State D} {r : Reaction D} → Keeps env s s' → ByCalls env s (s', r)
  quiet h = record { made = h }

  -- A change of the session's clock or counters alone.
  counting :
      {a b : Session} {shared : Shared D}
      → b.worker_id ≡ a.worker_id
      → b.handshaked ≡ a.handshaked
      → b.abusive ≡ a.abusive
      → b.in_flight_results ≡ a.in_flight_results
      → Keeps env
          (record { shared = shared; session = a })
          (record { shared = shared; session = b })
  counting worker hand abuse flight = record {
    made = no_call;
    session = record { identity = inl (worker, hand); abuse = abuse; idle = λ e. flight ∙ e };
  }

  -- The handshake makes the session's one change of identity.
  welcomed-Keeps :
      (m : Hello) (token : List ℕ) (s : State D)
      → s.session.handshaked ≡ false
      → ByCalls env s (welcomed env (identity env m s) token (enroll env (identity env m s) m s))
  welcomed-Keeps m token s e = record {
    made = record {
      made = no_call;
      session = record { identity = inr (e, refl); abuse = refl; idle = λ h. h };
    };
  }

  on_hello-Keeps :
      (m : Hello) (token : List ℕ) (s : State D) → ByCalls env s (on_hello env m token s)
  unfolding on_hello
  on_hello-Keeps m token s =
      by_cases (ByCalls env s) s.session.handshaked (λ _. quiet still)
        (λ e.
          both_branches (ByCalls env s) (not (m.version == protocol_version)) (quiet still)
            (welcomed-Keeps m token s e))

  served-Keeps :
      (h : Hash32) (from to : ℕ) (blob : Option (List ℕ)) (s : State D)
      → ByCalls env s (serve_blob h from to blob s)
  served-Keeps h from to none s = (quiet still)
  served-Keeps h from to (some blob) s =
      both_branches (ByCalls env s)
        (total_chunks blob == 0 || ltb (u32_mod - 1) (total_chunks blob)) (quiet still)
        (both_branches (ByCalls env s) (leb (min to (total_chunks blob)) from) (quiet still)
          (quiet (doing no_call)))

  on_asset_request-Keeps :
      (h : Option Hash32) (from to : ℕ) (s : State D)
      → ByCalls env s (on_asset_request env.assets h from to s)
  unfolding on_asset_request
  on_asset_request-Keeps none from to s = (quiet still)
  on_asset_request-Keeps (some h) from to s =
      served-Keeps h from to (find_in env.assets (address_of h)) s

  on_progress-Keeps :
      (id : Option TaskId) (asks : Bool) (s : State D) → ByCalls env s (on_progress id asks s)
  unfolding on_progress perform
  on_progress-Keeps none asks s = (quiet still)
  on_progress-Keeps (some id) asks s = both_branches (ByCalls env s) (not asks) (quiet still) (
      quiet (
        doing
          (one_call (to_renew_lease s.session.worker_id id s.session.now_ms s.session.lease_ms))))

  on_release-Keeps : (id : Option TaskId) (s : State D) → ByCalls env s (on_release id s)
  unfolding on_release perform
  on_release-Keeps none s = (quiet still)
  on_release-Keeps (some id) s =
      both_branches (ByCalls env s)
        (not (has_value (check_lease s.session.worker_id id s.shared.jobs))) (quiet still)
        (quiet (doing (one_call (to_release id))))

  on_goodbye-Keeps : (s : State D) → ByCalls env s (on_goodbye s)
  unfolding on_goodbye perform
  on_goodbye-Keeps s = quiet (doing (one_call (to_release_all s.session.worker_id)))

  pub on_disconnect-Keeps : (s : State D) → Keeps env s (on_disconnect s)
  unfolding on_disconnect perform release_all_held_by
  on_disconnect-Keeps s =
      both_branches (Keeps env s) (not s.session.handshaked) still
        (doing (one_call (to_release_all s.session.worker_id)))

  score_known-Keeps :
      (score : D) (rec : Option (WorkerRecord D)) (s : State D)
      → ByCalls env s (score_known env.doubles score rec s)
  score_known-Keeps score none s = (quiet still)
  score_known-Keeps score (some rec) s =
      both_branches (ByCalls env s)
        (not (env.doubles.is_positive score && env.doubles.is_finite score)) (quiet still)
        (quiet (doing no_call))

  handle-Keeps :
      (token : List ℕ) (m : Inbound D) (payload : List ℕ) (s : State D)
      → ByCalls env s (handle env token m payload s)
  unfolding handle
  handle-Keeps token (Inbound.hello m) payload s = on_hello-Keeps m token s
  handle-Keeps token (Inbound.lease_request n cached) payload s =
      quiet (on_lease_request-Keeps env n cached s)
  handle-Keeps token (Inbound.result_header h) payload s =
      quiet (on_result_header-Keeps env h payload s)
  handle-Keeps token (Inbound.release id) payload s = on_release-Keeps id s
  handle-Keeps token (Inbound.progress id asks) payload s = on_progress-Keeps id asks s
  handle-Keeps token Inbound.goodbye payload s = on_goodbye-Keeps s
  handle-Keeps token (Inbound.asset_request h from to) payload s =
      on_asset_request-Keeps h from to s
  handle-Keeps token (Inbound.benchmark_result score) payload s =
      unfold on_benchmark_result in
      score_known-Keeps score (lookup s.session.worker_id s.shared.fleet) s
  handle-Keeps token (Inbound.throttle level) payload s =
      unfold on_throttle in quiet (doing no_call)
  handle-Keeps token (Inbound.signal peer bytes) payload s =
      unfold on_signal in quiet (counting refl refl refl refl)
  handle-Keeps token Inbound.asset_data payload s = (quiet still)
  handle-Keeps token Inbound.coordinator_only payload s = (quiet still)
  handle-Keeps token (Inbound.no_body b) payload s = (quiet still)

  touched-Keeps : (s : State D) → Keeps env s (touched env s)
  touched-Keeps s = both_branches (Keeps env s) s.session.handshaked (doing no_call) still

  dispatch-Keeps :
      (token : List ℕ) (m : Inbound D) (payload : List ℕ) (now_ms : ℕ) (s : State D)
      → ByCalls env s (dispatch env token m payload now_ms s)
  unfolding dispatch
  dispatch-Keeps token m payload now_ms s =
      let s' = record s { session = record s.session { now_ms = now_ms } } in
      both_branches (ByCalls env s) (not s.session.handshaked && not (is_hello m))
        (quiet (counting refl refl refl refl))
        (quiet (
          also {s' = s'} (counting refl refl refl refl)
            (also (touched-Keeps s') (handle-Keeps token m payload (touched env s')).made)))

  with_revokes-Keeps :
      (s : State D) (r : State D × Reaction D)
      → ByCalls env s r
      → ByCalls env s (with_revokes env r)
  unfolding drain_revokes
  with_revokes-Keeps s (s', r) h =
      both_branches (ByCalls env s) s'.session.handshaked (quiet (also h.made (doing no_call))) h

  pub on_message-Keeps :
      (token : List ℕ) (m : Inbound D) (payload : List ℕ) (now_ms : ℕ) (s : State D)
      → Keeps env s (on_message env token m payload now_ms s).0
  unfolding on_message
  on_message-Keeps token m payload now_ms s =
      (with_revokes-Keeps s (dispatch env token m payload now_ms s)
        (dispatch-Keeps token m payload now_ms s)).made
