-- ===== src/AddressBook/Laws/Frame.antt =====
-- src/net/peers.rs: whose record an operation of the book may write.
use ipfs_embed.Prelude.{
  All, ℕ, List, [], ◌∷◌, Option, none, some, ◌≡◌, refl, or_else, Option-cases, inl, inr,
}
use ipfs_embed.Multiaddr.{PeerId, PeerIds}
use ipfs_embed.PeerInfo.{PeerInfo}
use ipfs_embed.PeerInfo.Failure.{Texts}
use ipfs_embed.AddressBook.State.{AddressBook, get_info, notify, handler_peer_id}
use ipfs_embed.AddressBook.State
use ipfs_embed.AddressBook.Addresses
use ipfs_embed.AddressBook.Connections
use ipfs_embed.AddressBook.Failures
use ipfs_embed.AddressBook.Identify
use ipfs_embed.AddressBook.Swarm.{
  FromSwarm, take_at, poll_actions, poll_deferred, refresh, add_listen_addr, remove_listen_addr,
}
use ipfs_embed.AddressBook.Swarm
use ipfs_embed.AddressBook.Invariant.Steps.{
  Call, step, dial, dial_address, add_address, remove_address, prune_peers, connection_closed,
  set_rtt, set_info, swarm_events, on_swarm_event, poll,
}
use ipfs_embed.AddressBook.Laws.Writes.{
  Has, add_address-Has, address_change-Has, connection_closed-Has, connection_established-Has,
  dial-Has, dial_address-Has, if-Has, info_set-Has, peer_failure-Has, rtt_set-Has,
  without_address-Has,
}

-- Whether a call may write the record of the peer `q`: the call is about `q`, or it prunes.
abbrev pub MayWrite : PeerIds → PeerId → Call → Type 0
MayWrite ids q (dial_address peer addr) = peer ≡ q
MayWrite ids q (add_address peer addr source) = peer ≡ q
MayWrite ids q (remove_address peer addr) = peer ≡ q
MayWrite ids q (prune_peers min_age) = Unit {0}
MayWrite ids q (connection_closed peer cp n error) = peer ≡ q
MayWrite ids q (set_rtt peer rtt) = peer ≡ q
MayWrite ids q (set_info peer info) = peer ≡ q
MayWrite ids q (on_swarm_event (Swarm.connection_established peer cp others)) = peer ≡ q
MayWrite ids q (on_swarm_event (Swarm.address_change peer old new_)) = peer ≡ q
MayWrite ids q (on_swarm_event (Swarm.dial_failure h peer_id error)) =
    or_else (handler_peer_id ids h.own_dial) peer_id ≡ some q
MayWrite ids q _ = ⊥

-- The calls that follow each other, each with the time when it is made.
unfoldable pub run : PeerIds → Texts → AddressBook → List (ℕ × Call) → AddressBook
run ids t b [] = b
run ids t b (c ∷ cs) = run ids t (step ids t b c) cs

-- The steps leave the record of the peer `q` as it is.
module _ (ids : PeerIds) (t : Texts) (q : PeerId) (o : Option PeerInfo) where
  refresh-Has :
      (b : AddressBook) (external : List State.AddressRecord)
      → Has ids t q o b
      → Has ids t q o (refresh b external)
  refresh-Has b external h = if-Has ids t q o b.refresh_external (record { same = h.same }) h

  poll_deferred-Has :
      (b : AddressBook) (due : Option ℕ) → Has ids t q o b → Has ids t q o (poll_deferred b due).0
  poll_deferred-Has b none h = h
  poll_deferred-Has b (some i) h = elim (Option-cases (take_at i b.deferred)) [
    | inl e ↦ rw (e, poll_deferred) h
    | inr (r, e) ↦ rw (e, poll_deferred) (record { same = h.same })
  ]

  poll_actions-Has :
      (b : AddressBook) (due : Option ℕ) (actions : List State.Action)
      → Has ids t q o b
      → Has ids t q o (poll_actions b due actions).0
  poll_actions-Has b due (a ∷ rest) h = record { same = h.same }
  poll_actions-Has b due [] h = poll_deferred-Has b due h

  event-Has :
      (b : AddressBook) (event : FromSwarm) (now : ℕ)
      → ¬ MayWrite ids q (on_swarm_event event)
      → Has ids t q o b
      → Has ids t q o (Swarm.on_swarm_event ids t b event now)
  unfolding Swarm.on_swarm_event Failures.dial_failure add_listen_addr remove_listen_addr
      State.notify
  event-Has b (Swarm.connection_established peer cp others) now n h =
      connection_established-Has ids t q o b peer cp others now n h
  event-Has b (Swarm.address_change peer old new_) now n h =
      address_change-Has ids t q o b peer old new_ now n h
  event-Has b (Swarm.dial_failure handler peer_id error) now n h =
      peer_failure-Has ids t q o b handler error now
        (or_else (handler_peer_id ids handler.own_dial) peer_id) n h
  event-Has b _ now n h = record { same = h.same }

  step-Has :
      (b : AddressBook) (now : ℕ) (c : Call)
      → ¬ MayWrite ids q c
      → Has ids t q o b
      → Has ids t q o (step ids t b (now, c))
  unfolding step State.swarm_events Swarm.poll Addresses.remove_address Connections.set_rtt
      Identify.set_info
  step-Has b now (dial peer) n h = dial-Has ids t q o b peer h
  step-Has b now (dial_address peer addr) n h = dial_address-Has ids t q o b peer addr n h
  step-Has b now (add_address peer addr source) n h =
      add_address-Has ids t q o b peer addr source now n h
  step-Has b now (remove_address peer addr) n h =
      without_address-Has ids t q o b peer addr (get_info peer b.peers) n h
  step-Has b now (prune_peers min_age) n h = elim (n tt) [ ]
  step-Has b now (connection_closed peer cp count error) n h =
      connection_closed-Has ids t q o b peer cp count error now n h
  step-Has b now (set_rtt peer rtt) n h =
      rtt_set-Has ids t q o b peer rtt (get_info peer b.peers) n h
  step-Has b now (set_info peer info) n h =
      info_set-Has ids t q o b peer info now (get_info peer b.peers) n h
  step-Has b now (swarm_events tx) n h = record { same = h.same }
  step-Has b now (on_swarm_event event) n h = event-Has b event now n h
  step-Has b now (poll external due) n h =
      poll_actions-Has (refresh b external) due b.actions (refresh-Has b external h)

  run-Has :
      (b : AddressBook) (cs : List (ℕ × Call))
      → All (λ c. ¬ MayWrite ids q c.1) cs
      → Has ids t q o b
      → Has ids t q o (run ids t b cs)
  unfolding run
  run-Has b [] n h = h
  run-Has b (c ∷ cs) n h = run-Has (step ids t b c) cs n.1 (step-Has b c.0 c.1 n.0 h)

-- However many calls follow each other: the record of a peer that none of them is about, if none of
-- them prunes, is the one that it was before, and if there was none, there is none.
pub run-get_info :
    (ids : PeerIds) (t : Texts) (b : AddressBook) (cs : List (ℕ × Call)) (q : PeerId)
    → All (λ c. ¬ MayWrite ids q c.1) cs
    → get_info q (run ids t b cs).peers ≡ get_info q b.peers
run-get_info ids t b cs q n =
    (run-Has ids t q (get_info q b.peers) b cs n (record { same = refl })).same
