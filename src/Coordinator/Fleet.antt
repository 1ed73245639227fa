-- ===== src/Coordinator/Fleet.antt =====
-- Who is connected (src/coordinator/fleet.cpp, include/p2pgpu/coordinator/fleet.hpp). A `Fleet` is its
-- map; an adapter's label is kept as its bytes.
pub mod Examples
pub mod Peers
use p2p_gpu.Base.{
  ℕ, ◌+◌, ◌%◌, max, Bool, not, ◌&&◌, ◌||◌, Option, none, some, List, [], ◌∷◌, ltb, leb, ◌==◌,
  if◌then◌else◌, u64_mod, u32_mod, take, lookup, insert, remove,
}
use p2p_gpu.Protocol.Ids.{WorkerId, TaskId, id_eq, id_key}
use p2p_gpu.Coordinator.Affinity.{AssetId, has_asset}
use p2p_gpu.Coordinator.Doubles.{DoubleOps}

pub record WorkerRecord (D : Type 0) : Type 0 where
  pub id : WorkerId
  pub conn_id : ℕ
  pub last_seen_ms : ℕ
  pub tasks_completed : ℕ
  pub adapter_vendor : List ℕ
  pub adapter_device : List ℕ
  pub adapter_backend : List ℕ
  pub ice_gathered : ℕ
  pub joined_ms : ℕ
  pub first_grant_ms : ℕ
  pub first_result_ms : ℕ
  pub score_ops_per_sec : D
  pub correction : D
  pub throttle : D
  pub units_completed : ℕ
  pub observed_ms_total : D
  pub predicted_ms : D
  pub granted_at_ms : ℕ
  pub pending_revokes : List TaskId
  pub cached_assets : List AssetId

abbrev pub Fleet : Type 0 → Type 0
Fleet D = List (WorkerId × WorkerRecord D)

module _ {D : Type 0} (f : DoubleOps D) where
  -- A record as `Join` leaves it.
  abbrev pub newcomer : WorkerId → ℕ → ℕ → WorkerRecord D
  newcomer id conn_id now_ms = record {
    id = id;
    conn_id = conn_id;
    last_seen_ms = now_ms;
    tasks_completed = 0;
    adapter_vendor = [];
    adapter_device = [];
    adapter_backend = [];
    ice_gathered = 0;
    joined_ms = now_ms;
    first_grant_ms = 0;
    first_result_ms = 0;
    score_ops_per_sec = f.zero_d;
    correction = f.one_d;
    throttle = f.one_d;
    units_completed = 0;
    observed_ms_total = f.zero_d;
    predicted_ms = f.zero_d;
    granted_at_ms = 0;
    pending_revokes = [];
    cached_assets = [];
  }

  unfoldable pub join : WorkerId → ℕ → ℕ → Fleet D → Fleet D
  join id conn_id now_ms fleet = insert id (newcomer id conn_id now_ms) fleet

module _ {D : Type 0} where
  unfoldable pub leave : WorkerId → Fleet D → Fleet D
  leave id fleet = remove id fleet

  unfoldable pub find_worker : WorkerId → Fleet D → Option (WorkerRecord D)
  find_worker id fleet = lookup id fleet

  abbrev pub written :
      WorkerId → (WorkerRecord D → WorkerRecord D) → Option (WorkerRecord D) → Fleet D → Fleet D
  written id change none fleet = fleet
  written id change (some r) fleet = insert id (change r) fleet

  -- `Mutable`: a write through the pointer that it returns, and nothing where that is null.
  unfoldable pub adjust : WorkerId → (WorkerRecord D → WorkerRecord D) → Fleet D → Fleet D
  adjust id change fleet = written id change (lookup id fleet) fleet

  unfoldable pub touch : WorkerId → ℕ → Fleet D → Fleet D
  unfolding adjust
  touch id now_ms fleet = adjust id (λ r. record r { last_seen_ms = now_ms }) fleet

  unfoldable pub record_completion : WorkerId → Fleet D → Fleet D
  unfolding adjust
  record_completion id fleet =
      adjust id (λ r. record r { tasks_completed = (r.tasks_completed + 1) % u32_mod }) fleet

  unfoldable pub find_lost : ℕ → ℕ → Fleet D → List WorkerId
  find_lost now_ms timeout_ms [] = []
  find_lost now_ms timeout_ms ((id, r) ∷ fleet) =
      if ltb ((r.last_seen_ms + timeout_ms) % u64_mod) now_ms
      then id ∷ find_lost now_ms timeout_ms fleet
      else find_lost now_ms timeout_ms fleet

  -- The workers that hold an asset, all but one.
  unfoldable pub holders : AssetId → WorkerId → Fleet D → List WorkerId
  holders asset exclude [] = []
  holders asset exclude ((id, r) ∷ fleet) =
      if not (id_eq id exclude) && has_asset r.cached_assets asset
      then id ∷ holders asset exclude fleet
      else holders asset exclude fleet

-- The order of `std::ranges::sort` there: the high halves, then the low ones.
unfoldable pub id_le : WorkerId → WorkerId → Bool
id_le a b = ltb a.hi b.hi || a.hi == b.hi && leb a.lo b.lo

unfoldable pub insert_sorted : WorkerId → List WorkerId → List WorkerId
unfolding id_le
insert_sorted x [] = x ∷ []
insert_sorted x (y ∷ ys) = if id_le x y then x ∷ y ∷ ys else y ∷ insert_sorted x ys

unfoldable pub sort_ids : List WorkerId → List WorkerId
unfolding insert_sorted
sort_ids [] = []
sort_ids (x ∷ xs) = insert_sorted x (sort_ids xs)

-- `PeersHolding`; where `max` is 0 the list that is cut off is empty.
unfoldable pub peers_holding : {D : Type 0} → AssetId → WorkerId → ℕ → Fleet D → List WorkerId
unfolding holders sort_ids
peers_holding asset exclude max fleet =
    if max == 0 then [] else take max (sort_ids (holders asset exclude fleet))
