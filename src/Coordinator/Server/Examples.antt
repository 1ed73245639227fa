-- ===== src/Coordinator/Server/Examples.antt =====
-- The server with one worker: a lease request, a sweep, and the loss of the connection.
use p2p_gpu.Base.{
  ℕ, ◌≡◌, refl, ◌⊎◌, inl, true, false, none, some, List, [], ◌∷◌, arith, nat_eq, bytes_eq, lookup,
  AllEntries-lookup,
}
use p2p_gpu.Protocol.Ids.{is_nil, id_eq, id_key}
use p2p_gpu.Coordinator.Samples.{
  hundredths, reputation_config, alice, first_task, never, leased_task, busy, busy-IsValid,
}
use p2p_gpu.Coordinator.Server.{
  Config, Connection, Server, Event, open_connection, frame, close_connection, sweep, new_session,
}
use p2p_gpu.Coordinator.Server.Steps.{serve}
use p2p_gpu.Coordinator.Server.Routing.{serve-IsRouted}
use p2p_gpu.Coordinator.Server.Registry.{IsRoute, IsRouted}
use p2p_gpu.Coordinator.Server.Refinement.{serve-keeps_tasks}
use p2p_gpu.Coordinator.Session.{Env, State}
use p2p_gpu.Coordinator.Session.Returning.{IsOwn, on_release-IsOwn}
use p2p_gpu.Coordinator.Assets.{AssetStore, find_asset, Hash32, address_of}
use p2p_gpu.Coordinator.Session.AssetServing.{find_in, on_asset_request}
use p2p_gpu.Worker.AssetFetch.Service.{IsAnswered, on_asset_request-IsAnswered}
use p2p_gpu.Coordinator.Session.Messages.{ResultHeader, Inbound}
use p2p_gpu.Coordinator.Fleet.{newcomer}
use p2p_gpu.Coordinator.Quorum.{no_policy, match}
use p2p_gpu.Coordinator.Job.{Task}
use p2p_gpu.Coordinator.Job.Calls.Runs.{IsValid}
use p2p_gpu.Coordinator.Job.Changes.{TaskStep}
use p2p_gpu.Coordinator.Session.Authority.{
  IsGuarded, on_result_header-IsGuarded, IsTurnedAway, on_lease_request-IsTurnedAway,
}
use p2p_gpu.Coordinator.Session.Results.{on_result_header}
use p2p_gpu.Coordinator.Session.Leasing.{on_lease_request}

abbrev config : Config
config = record {
  lease_ms = 30000;
  worker_timeout_ms = 15000;
  speculation = true;
  ice_servers = [];
  disable_p2p = false;
  quorum = record { policy = no_policy; required_agreement = 1; max_replicas = 4 };
}

abbrev env : Env ℕ
env = record {
  doubles = hundredths;
  float_of = λ w. w;
  reputation_config = reputation_config;
  spot_check_config = record { proven_at = 90; rate_unproven = 10; rate_trusted = 2 };
  kernels = [];
  assets = none;
  checksum_of = λ bytes. 0;
  compare = λ spec a b. record { verdict = match; max_ulp_diff = 0 };
  severity = λ q. 100;
  check_reference = λ spec j t payload stats. (stats, true);
  below = never;
}

abbrev connection : Connection
connection = record {
  session = record (new_session config 1) { handshaked = true; worker_id = alice };
  rejected_frames = 0;
}

-- Alice is connected as connection 1 and has her task.
abbrev serving : Server ℕ
serving = record {
  shared = record {
    jobs = busy;
    fleet = (alice, record (newcomer hundredths alice 1 0) { score_ops_per_sec = 400 }) ∷ [];
    reputation = none;
    spot_checks = none;
    compositor = none;
    reference_stats = none;
    asset_served = none;
  };
  connections = (1, connection) ∷ [];
  live = (alice, 1) ∷ [];
  next_conn_id = 2;
  rejected_frames_total = 0;
  stalled_sweeps = 0;
}

abbrev evening : List (Event ℕ)
evening =
    frame 1 [] (some (Inbound.lease_request 1 none, [])) 1000
    ∷ sweep 6000 true
    ∷ open_connection 5
    ∷ close_connection 1
    ∷ []

serve-keeps_tasks_example :
    IsValid (serve env config evening serving).shared.jobs
    × ((u : Task) × (lookup first_task (serve env config evening serving).shared.jobs.tasks
          ≡ some u)
        × TaskStep leased_task u)
unfolding lookup id_eq
serve-keeps_tasks_example =
    serve-keeps_tasks env config evening serving first_task leased_task busy-IsValid refl

alice-IsRoute : IsRoute serving.connections alice 1
unfolding lookup
alice-IsRoute = record { to = connection; is_open = refl; is_worker = refl; is_known = refl }

serving-IsRouted : IsRouted serving.live serving.connections
serving-IsRouted = record {
  live_once = (refl, tt);
  open_once = (refl, tt);
  routes = λ worker conn e.
      AllEntries-lookup (IsRoute serving.connections) worker serving.live conn (alice-IsRoute, tt)
        e;
  named = λ conn c e.
      AllEntries-lookup
        (λ at (d : Connection). (d.session.handshaked ≡ true) ⊎ (is_nil d.session.worker_id ≡ true))
        conn serving.connections c (inl refl, tt) e;
}

serve-IsRouted_example :
    IsRouted (serve env config evening serving).live (serve env config evening serving).connections
serve-IsRouted_example = serve-IsRouted env config evening serving serving-IsRouted

-- Alice's result comes twice, with and without the length that its header says.
abbrev before : State ℕ
before = record { shared = serving.shared; session = record connection.session { now_ms = 900 } }

abbrev short_header : ResultHeader
short_header = record {
  task_id = some first_task;
  payload_bytes = 8;
  checksum = 0;
  units_done = 0;
  sequence = 0;
  stats = none;
}

on_result_header-IsGuarded_example :
    IsGuarded env first_task short_header
      (1 ∷ [])
      before
      (on_result_header env short_header (1 ∷ []) before).0
on_result_header-IsGuarded_example =
    on_result_header-IsGuarded env first_task short_header (1 ∷ []) before refl

abbrev after_abuse : State ℕ
after_abuse = record before { session = record before.session { abusive = true } }

on_lease_request-IsTurnedAway_example :
    IsTurnedAway env after_abuse (on_lease_request env 2 none after_abuse)
on_lease_request-IsTurnedAway_example =
    on_lease_request-IsTurnedAway env 2 none after_abuse (inl refl)

-- Alice gives back the task that she holds, or has its lease renewed.
on_release-IsOwn_example : IsOwn first_task before
on_release-IsOwn_example = on_release-IsOwn first_task before busy-IsValid

-- Three bytes at the hash that is zero; of four chunks that are asked for there is one.
abbrev zero_hash : Hash32
zero_hash = record { a = 0; b = 0; c = 0; d = 0 }

abbrev one_asset : AssetStore
unfolding address_of
one_asset = record {
  blobs = (address_of zero_hash, 1 ∷ 2 ∷ 3 ∷ []) ∷ [];
  total_bytes = 3;
  bytes_served = 0;
}

stored_asset : find_in (some one_asset) (address_of zero_hash) ≡ some (1 ∷ 2 ∷ 3 ∷ [])
unfolding find_asset address_of lookup bytes_eq
stored_asset = refl

on_asset_request-IsAnswered_example :
    IsAnswered zero_hash 0 4
      (1 ∷ 2 ∷ 3 ∷ [])
      before
      (on_asset_request (some one_asset) (some zero_hash) 0 4 before)
on_asset_request-IsAnswered_example =
    on_asset_request-IsAnswered (some one_asset) zero_hash 0 4 (1 ∷ 2 ∷ 3 ∷ []) before stored_asset
      (omega arith)
