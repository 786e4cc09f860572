-- ===== src/AddressBook/Invariant/Steps.antt =====
-- src/net/peers.rs: every operation of the book, in any order.
use ipfs_embed.Prelude.{
  Bool-cases, ℕ, ◌≢◌, ◌≡◌, Bool, true, false, List, [], ◌∷◌, Option, none, some, arith, All,
  Option-cases, inl, inr, zero, suc, if◌then◌else◌, sym,
}
use ipfs_embed.Multiaddr.{Multiaddr, PeerId, PeerIds, ConnectedPoint}
use ipfs_embed.PeerInfo.Source.{AddressSource}
use ipfs_embed.PeerInfo.Failure.{Texts, ConnectionError}
use ipfs_embed.Channel.{Channel}
use ipfs_embed.AddressBook.State.{AddressBook, Metrics, Action, AddressRecord, Event, new}
use ipfs_embed.AddressBook.State
use ipfs_embed.AddressBook.Dial
use ipfs_embed.AddressBook.Addresses
use ipfs_embed.AddressBook.Prune
use ipfs_embed.AddressBook.Connections
use ipfs_embed.AddressBook.Identify
use ipfs_embed.AddressBook.Swarm.{
  FromSwarm, take_at, poll_actions, poll_deferred, refresh, add_listen_addr, remove_listen_addr,
}
use ipfs_embed.AddressBook.Swarm
use ipfs_embed.AddressBook.Invariant.Book.{IsValid, IsForeign, notify-IsValid}
use ipfs_embed.AddressBook.Invariant.Ops.Simple.{
  dial-IsValid, dial_address-IsValid, add_address-IsValid, remove_address-IsValid',
  connection_closed-IsValid, connection_established-IsValid, address_change-IsValid,
  set_rtt-IsValid, prune_peers-IsValid,
}
use ipfs_embed.AddressBook.Invariant.Ops.Failing.{dial_failure-IsValid}
use ipfs_embed.AddressBook.Invariant.Ops.Identifying.{set_info-IsValid}

-- A call of one of the operations of the book.
pub data Call : Type 0 where
  dial : PeerId → Call
  dial_address : PeerId → Multiaddr → Call
  add_address : PeerId → Multiaddr → AddressSource → Call
  remove_address : PeerId → Multiaddr → Call
  prune_peers : ℕ → Call
  connection_closed : PeerId → ConnectedPoint → ℕ → Option ConnectionError → Call
  set_rtt : PeerId → Option ℕ → Call
  set_info : PeerId → Identify.Info → Call
  swarm_events : Channel Event → Call
  on_swarm_event : FromSwarm → Call
  poll : List AddressRecord → Option ℕ → Call

-- The swarm reports no connection of the node to itself.
abbrev pub IsRemote : PeerId → Call → Type 0
IsRemote own (connection_closed peer cp n error) = peer ≢ own
IsRemote own (on_swarm_event (Swarm.connection_established peer cp others)) = peer ≢ own
IsRemote own (on_swarm_event (Swarm.address_change peer old new)) = peer ≢ own
IsRemote own _ = Unit {0}

beside-IsValid :
    (b : AddressBook) (listeners : List Multiaddr) (external : List AddressRecord)
    (refresh_external : Bool) (event_stream : List (Channel Event)) (metrics : Metrics)
    → IsValid b
    → IsValid (record b {
      listeners = listeners;
      external = external;
      refresh_external = refresh_external;
      event_stream = event_stream;
      metrics = metrics;
    })
beside-IsValid b _ _ _ _ _ v = record {
  peers_valid = v.peers_valid;
  peers_distinct = v.peers_distinct;
  actions_foreign = v.actions_foreign;
  deferred_foreign = v.deferred_foreign;
}

pub All-take_at {ℓ κ} :
    {A : Type ℓ} (P : A → Type κ) (i : ℕ) (xs rest : List A) (y : A)
    → All P xs
    → take_at i xs ≡ some (y, rest)
    → P y × All P rest
unfolding take_at
All-take_at P i [] rest y h e = cc
All-take_at P zero (x ∷ xs) rest y h e =
    let p : x ≡ y = ground arith in
    let q : xs ≡ rest = ground arith in (rw (sym p) h.0, rw (sym q) h.1)
All-take_at P (suc i) (x ∷ xs) rest y h e = elim (Option-cases (take_at i xs)) [
  | inl n ↦ ground arith
  | inr ((y', rest'), n) ↦
      let ih = All-take_at P i xs rest' y' h.1 n in
      let p : y' ≡ y = ground arith in
      let q : x ∷ rest' ≡ rest = ground arith in (rw (sym p) ih.0, rw (sym q) (h.0, ih.1))
]

refresh-IsValid :
    (b : AddressBook) (external : List AddressRecord) → IsValid b → IsValid (refresh b external)
refresh-IsValid b external v = either b.refresh_external (beside-IsValid b _ _ _ _ _ v) v
  where
    either : (c : Bool) {x y : AddressBook} → IsValid x → IsValid y → IsValid (if c then x else y)
    either true h k = h
    either false h k = k

poll_actions-IsValid :
    (b : AddressBook) (due : Option ℕ) (actions : List Action)
    → All (IsForeign b.local_peer_id) actions
    → IsValid b
    → IsValid (poll_actions b due actions).0
poll_actions-IsValid b due (a ∷ rest) h v = record {
  peers_valid = v.peers_valid;
  peers_distinct = v.peers_distinct;
  actions_foreign = h.1;
  deferred_foreign = v.deferred_foreign;
}
poll_actions-IsValid b none [] h v = v
poll_actions-IsValid b (some i) [] h v = elim (Option-cases (take_at i b.deferred)) [
  | inl e ↦ rw (e, poll_deferred) v
  | inr ((a, rest), e) ↦
      let k = All-take_at (IsForeign b.local_peer_id) i b.deferred rest a v.deferred_foreign e in
      rw (e, poll_deferred)
        (record {
          peers_valid = v.peers_valid;
          peers_distinct = v.peers_distinct;
          actions_foreign = v.actions_foreign;
          deferred_foreign = k.1;
        })
]

poll-IsValid :
    (b : AddressBook) (external : List AddressRecord) (due : Option ℕ)
    → IsValid b
    → IsValid (Swarm.poll b external due).0
unfolding Swarm.poll
poll-IsValid b external due v =
    let v' = refresh-IsValid b external v in
    poll_actions-IsValid (refresh b external) due b.actions (actions v') v'
  where
    actions :
        IsValid (refresh b external) → All (IsForeign (refresh b external).local_peer_id) b.actions
    actions h = elim (Bool-cases b.refresh_external) [
      | inl e ↦ rw e v.actions_foreign
      | inr e ↦ rw e v.actions_foreign
    ]

module _ (ids : PeerIds) (t : Texts) where
  unfoldable pub step : AddressBook → ℕ × Call → AddressBook
  step b (now, dial peer) = Dial.dial b peer
  step b (now, dial_address peer addr) = Dial.dial_address ids b peer addr
  step b (now, add_address peer addr source) = Addresses.add_address ids b peer addr source now
  step b (now, remove_address peer addr) = Addresses.remove_address ids b peer addr
  step b (now, prune_peers min_age) = Prune.prune_peers b min_age now
  step b (now, connection_closed peer cp n error) =
      Connections.connection_closed ids t b peer cp n error now
  step b (now, set_rtt peer rtt) = Connections.set_rtt b peer rtt
  step b (now, set_info peer info) = Identify.set_info ids b peer info now
  step b (now, swarm_events tx) = State.swarm_events b tx
  step b (now, on_swarm_event event) = Swarm.on_swarm_event ids t b event now
  step b (now, poll external due) = (Swarm.poll b external due).0

  -- The states that calls lead to from a new book.
  pub data Reach (own : PeerId) : AddressBook → Type 0 where
    start :
        (port_reuse loopback keep_alive : Bool) → Reach own (new own port_reuse loopback keep_alive)
    next :
        {b : AddressBook} (c : ℕ × Call)
        → Reach own b
        → IsRemote b.local_peer_id c.1
        → Reach own (step b c)

  pub new-IsValid : (own : PeerId) (p l k : Bool) → IsValid (new own p l k)
  new-IsValid own p l k = record {
    peers_valid = tt;
    peers_distinct = tt;
    actions_foreign = tt;
    deferred_foreign = tt;
  }

  on_swarm_event-IsValid :
      (b : AddressBook) (event : FromSwarm) (now : ℕ)
      → IsRemote b.local_peer_id (on_swarm_event event)
      → IsValid b
      → IsValid (Swarm.on_swarm_event ids t b event now)
  unfolding Swarm.on_swarm_event add_listen_addr remove_listen_addr
  on_swarm_event-IsValid b (Swarm.connection_established peer cp others) now n v =
      connection_established-IsValid ids b peer cp others now n v
  on_swarm_event-IsValid b Swarm.connection_closed now n v = v
  on_swarm_event-IsValid b (Swarm.address_change peer old new) now n v =
      address_change-IsValid ids b peer old new now n v
  on_swarm_event-IsValid b (Swarm.dial_failure handler peer_id error) now n v =
      dial_failure-IsValid ids t b handler peer_id error now v
  on_swarm_event-IsValid b Swarm.listen_failure now n v = v
  on_swarm_event-IsValid b (Swarm.new_listener id) now n v =
      notify-IsValid _ _ (beside-IsValid b _ _ _ _ _ v)
  on_swarm_event-IsValid b (Swarm.new_listen_addr id addr) now n v =
      notify-IsValid _ _ (beside-IsValid b _ _ _ _ _ v)
  on_swarm_event-IsValid b (Swarm.expired_listen_addr id addr) now n v =
      notify-IsValid _ _ (beside-IsValid b _ _ _ _ _ v)
  on_swarm_event-IsValid b (Swarm.listener_error id err) now n v =
      notify-IsValid _ _ (beside-IsValid b _ _ _ _ _ v)
  on_swarm_event-IsValid b (Swarm.listener_closed id) now n v =
      notify-IsValid _ _ (beside-IsValid b _ _ _ _ _ v)
  on_swarm_event-IsValid b (Swarm.new_external_addr addr) now n v =
      notify-IsValid _ _ (beside-IsValid b _ _ _ _ _ v)
  on_swarm_event-IsValid b (Swarm.expired_external_addr addr) now n v =
      notify-IsValid _ _ (beside-IsValid b _ _ _ _ _ v)

  pub step-IsValid :
      (b : AddressBook) (now : ℕ) (c : Call)
      → IsRemote b.local_peer_id c
      → IsValid b
      → IsValid (step b (now, c))
  unfolding step State.swarm_events
  step-IsValid b now (dial peer) n v = dial-IsValid b peer v
  step-IsValid b now (dial_address peer addr) n v = dial_address-IsValid ids b peer addr v
  step-IsValid b now (add_address peer addr source) n v =
      add_address-IsValid ids b peer addr source now v
  step-IsValid b now (remove_address peer addr) n v = remove_address-IsValid' ids b peer addr v
  step-IsValid b now (prune_peers min_age) n v = prune_peers-IsValid b min_age now v
  step-IsValid b now (connection_closed peer cp count error) n v =
      connection_closed-IsValid ids t b peer cp count error now n v
  step-IsValid b now (set_rtt peer rtt) n v = set_rtt-IsValid b peer rtt v
  step-IsValid b now (set_info peer info) n v = set_info-IsValid ids b peer info now v
  step-IsValid b now (swarm_events tx) n v = beside-IsValid b _ _ _ _ _ v
  step-IsValid b now (on_swarm_event event) n v = on_swarm_event-IsValid b event now n v
  step-IsValid b now (poll external due) n v = poll-IsValid b external due v

  -- In every state that calls lead to, by whatever times and in whatever order, if the swarm reports
  -- no connection of the node to itself, then the book does not hold the node itself, asks for no dial of the node itself, keeps addresses and connections in
  -- the form that ends in a peer, and keeps ten failures for each peer at most.
  pub Reach-IsValid : {own : PeerId} {b : AddressBook} → Reach own b → IsValid b
  Reach-IsValid {own} (start p l k) = new-IsValid own p l k
  Reach-IsValid (next {b} (now, c) r n) = step-IsValid b now c n (Reach-IsValid r)
