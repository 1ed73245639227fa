-- ===== src/Coordinator/Server/Registry.antt =====
-- The registry of live workers (`Register` and `Unregister` of src/coordinator/net.cpp): no entry outlives
-- its connection, so that the relay and the sweep never use a session that is gone.
use p2p_gpu.Protocol.Ids.{WorkerId, is_nil, id_eq, id_eq_iff, id_key}
use p2p_gpu.Coordinator.Server.{Connection}
use p2p_gpu.Coordinator.Session.{Session}
use p2p_gpu.Base.{
  ℕ, ◌≡◌, ap, subst, ◌∙◌, ◌⊎◌, inl, inr, true, false, none, some, List, arith, ◌==◌, ==_iff,
  Bool-cases, nat_eq, lookup, insert, remove, lookup-insert, lookup-insert_self, keys, Distinct,
  insert-Distinct, remove-Distinct, lookup-insert_cases, lookup-remove_other, lookup-remove_found,
}

-- What a change of a connection's session may do to the worker's identity.
abbrev pub SameWorker : Session → Session → Type 0
SameWorker a b =
    ((b.worker_id ≡ a.worker_id) × (b.handshaked ≡ a.handshaked))
    ⊎ ((a.handshaked ≡ false) × (b.handshaked ≡ true))

-- An open connection whose session is that of a worker.
pub record IsRoute (connections : List (ℕ × Connection)) (worker : WorkerId) (conn : ℕ)
    : Type 0 where
  pub to : Connection
  pub is_open : lookup conn connections ≡ some to
  pub is_worker : to.session.worker_id ≡ worker
  pub is_known : to.session.handshaked ≡ true

pub record IsRouted (live : List (WorkerId × ℕ)) (connections : List (ℕ × Connection))
    : Type 0 where
  pub live_once : Distinct (keys live)
  pub open_once : Distinct (keys connections)
  pub routes :
      (worker : WorkerId) (conn : ℕ)
      → lookup worker live ≡ some conn
      → IsRoute connections worker conn
  -- A session has no worker before its handshake.
  pub named :
      (conn : ℕ) (c : Connection)
      → lookup conn connections ≡ some c
      → (c.session.handshaked ≡ true) ⊎ (is_nil c.session.worker_id ≡ true)

module _ {live : List (WorkerId × ℕ)} {conns : List (ℕ × Connection)}
    (h : IsRouted live conns) where
  -- A connection's session moves on.
  pub put-IsRouted :
      (conn : ℕ) (c c' : Connection)
      → lookup conn conns ≡ some c
      → SameWorker c.session c'.session
      → IsRouted live (insert conn c' conns)
  put-IsRouted conn c c' q same = record {
    live_once = h.live_once;
    open_once = insert-Distinct conn c' conns h.open_once;
    routes = λ worker at e. moved at (h.routes worker at e);
    named = λ at d e. renamed at d (lookup-insert_cases conn at c' d conns e);
  }
    where
      kept :
          {worker : WorkerId} (at : ℕ)
          → conn ≡ at
          → IsRoute conns worker at
          → SameWorker c.session c'.session
          → (c'.session.worker_id ≡ worker) × (c'.session.handshaked ≡ true)
      kept at e r (inl (worker_same, hand_same)) =
          let open_at = r.is_open in let is_w = r.is_worker in let is_k = r.is_known in (cc, cc)
      kept at e r (inr (no_hand, hand)) =
          let open_at = r.is_open in let is_k = r.is_known in (cc, hand)

      moved :
          {worker : WorkerId} (at : ℕ)
          → IsRoute conns worker at
          → IsRoute (insert conn c' conns) worker at
      moved {worker} at r = elim (Bool-cases (conn == at)) [
        | inl here ↦
            let e = (==_iff conn at).0 here in
            let k = kept at e r same in
            record {
              to = c';
              is_open =
                  subst (λ x. lookup x (insert conn c' conns) ≡ some c') e
                    (lookup-insert_self conn c' conns);
              is_worker = k.0;
              is_known = k.1;
            }
        | inr other ↦ record {
          to = r.to;
          is_open = lookup-insert conn at c' conns ∙ rw other r.is_open;
          is_worker = r.is_worker;
          is_known = r.is_known;
        }
      ]

      renamed :
          (at : ℕ) (d : Connection)
          → ((conn ≡ at) × (c' ≡ d)) ⊎ (((conn == at) ≡ false) × (lookup at conns ≡ some d))
          → (d.session.handshaked ≡ true) ⊎ (is_nil d.session.worker_id ≡ true)
      renamed at d (inl p) =
          subst
            (λ (x : Connection).
              (x.session.handshaked ≡ true) ⊎ (is_nil x.session.worker_id ≡ true))
            p.1 (named_after same (h.named conn c q))
        where
          named_after :
              SameWorker c.session c'.session
              → (c.session.handshaked ≡ true) ⊎ (is_nil c.session.worker_id ≡ true)
              → (c'.session.handshaked ≡ true) ⊎ (is_nil c'.session.worker_id ≡ true)
          named_after (inl (w, k)) (inl n) = inl (k ∙ n)
          named_after (inl (w, k)) (inr n) = inr (ap is_nil w ∙ n)
          named_after (inr k) n = inl k.1
      renamed at d (inr p) = h.named at d p.1

  -- `Register`.
  pub register-IsRouted :
      (conn : ℕ) (c : Connection)
      → lookup conn conns ≡ some c
      → is_nil c.session.worker_id ≡ false
      → IsRouted (insert c.session.worker_id conn live) conns
  register-IsRouted conn c q real = record {
    live_once = insert-Distinct c.session.worker_id conn live h.live_once;
    open_once = h.open_once;
    routes = λ worker at e.
        routed worker at (lookup-insert_cases c.session.worker_id worker conn at live e);
    named = h.named;
  }
    where
      known :
          (c.session.handshaked ≡ true) ⊎ (is_nil c.session.worker_id ≡ true)
          → c.session.handshaked ≡ true
      known (inl k) = k
      known (inr n) = cc

      routed :
          (worker : WorkerId) (at : ℕ)
          → ((c.session.worker_id ≡ worker) × (conn ≡ at))
            ⊎ ((id_eq c.session.worker_id worker ≡ false) × (lookup worker live ≡ some at))
          → IsRoute conns worker at
      routed worker at (inl p) = record {
        to = c;
        is_open = subst (λ x. lookup x conns ≡ some c) p.1 q;
        is_worker = p.0;
        is_known = known (h.named conn c q);
      }
      routed worker at (inr p) = h.routes worker at p.1

  -- `Unregister` alone.
  pub unregister-IsRouted : (worker : WorkerId) → IsRouted (remove worker live) conns
  unregister-IsRouted worker = record {
    live_once = remove-Distinct worker live h.live_once;
    open_once = h.open_once;
    routes = λ w at e. h.routes w at (lookup-remove_found worker w at live h.live_once e).1;
    named = h.named;
  }

  -- The connection goes, and with it the entry of its worker.
  pub close-IsRouted :
      (conn : ℕ) (c : Connection)
      → lookup conn conns ≡ some c
      → IsRouted (remove c.session.worker_id live) (remove conn conns)
  close-IsRouted conn c q = record {
    live_once = remove-Distinct c.session.worker_id live h.live_once;
    open_once = remove-Distinct conn conns h.open_once;
    routes = λ w at e.
        let (other, entry) = lookup-remove_found c.session.worker_id w at live h.live_once e in
        elsewhere w at other (h.routes w at entry);
    named = λ at d e. h.named at d (lookup-remove_found conn at d conns h.open_once e).1;
  }
    where
      elsewhere :
          (w : WorkerId) (at : ℕ)
          → id_eq c.session.worker_id w ≡ false
          → IsRoute conns w at
          → IsRoute (remove conn conns) w at
      elsewhere w at other r = elim (Bool-cases (conn == at)) [
        | inl here ↦
            let e = (==_iff conn at).0 here in
            let open_at = r.is_open in
            let is_w = r.is_worker in
            let e' : c.session.worker_id ≡ w = cc in
            let known = (id_eq_iff c.session.worker_id w).1 e' in cc
        | inr away ↦ record {
          to = r.to;
          is_open = lookup-remove_other conn at conns away ∙ r.is_open;
          is_worker = r.is_worker;
          is_known = r.is_known;
        }
      ]

  -- A new connection, at a socket that was not open.
  pub open-IsRouted :
      (conn : ℕ) (c : Connection)
      → lookup conn conns ≡ none
      → is_nil c.session.worker_id ≡ true
      → IsRouted live (insert conn c conns)
  open-IsRouted conn c fresh unnamed = record {
    live_once = h.live_once;
    open_once = insert-Distinct conn c conns h.open_once;
    routes = λ w at e. apart w at (h.routes w at e);
    named = λ at d e. new_named at d (lookup-insert_cases conn at c d conns e);
  }
    where
      apart : (w : WorkerId) (at : ℕ) → IsRoute conns w at → IsRoute (insert conn c conns) w at
      apart w at r = record {
        to = r.to;
        is_open =
            let open_at = r.is_open in
            ground (arith, lookup-insert conn at c conns, ==_iff conn at);
        is_worker = r.is_worker;
        is_known = r.is_known;
      }

      new_named :
          (at : ℕ) (d : Connection)
          → ((conn ≡ at) × (c ≡ d)) ⊎ (((conn == at) ≡ false) × (lookup at conns ≡ some d))
          → (d.session.handshaked ≡ true) ⊎ (is_nil d.session.worker_id ≡ true)
      new_named at d (inl p) =
          inr (subst (λ (x : Connection). is_nil x.session.worker_id ≡ true) p.1 unnamed)
      new_named at d (inr p) = h.named at d p.1
