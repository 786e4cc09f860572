-- ===== src/AddressBook/Invariant/Listeners.antt =====
-- src/net/peers.rs: the gauge of listen addresses follows the set of them.
use ipfs_embed.Prelude.{
  Option-cases, any-append, ℕ, false, List, [], ◌∷◌, ◌++◌, Option, some, none, ◌≡◌, refl, sym, ap,
  ◌∙◌, arith, length, ◌+◌, not, retain, holds, length-append, any, Bool-cases, inl, inr,
  if◌then◌else◌,
}
use ipfs_embed.Multiaddr.{Multiaddr, Multiaddr-discrete, PeerId, PeerIds}
use ipfs_embed.PeerInfo.Failure.{Texts}
use ipfs_embed.AddressBook.State.{Action, AddressBook, AddressRecord, contains}
use ipfs_embed.AddressBook.State
use ipfs_embed.AddressBook.Swarm.{
  FromSwarm, add_listen_addr, remove_listen_addr, refresh, poll_actions, poll_deferred, take_at,
}
use ipfs_embed.AddressBook.Swarm
use ipfs_embed.AddressBook.Invariant.Steps.{
  Call, Reach, start, next, step, dial, dial_address, add_address, remove_address, prune_peers,
  connection_closed, set_rtt, set_info, swarm_events, on_swarm_event, poll,
}
use ipfs_embed.AddressBook.Invariant.Gauges.{
  IsBeside, side, dial-IsBeside, dial_address-IsBeside, add_address-IsBeside,
  remove_address-IsBeside, prune_peers-IsBeside, set_rtt-IsBeside, connection_closed-IsBeside,
  connection_established-IsBeside, address_change-IsBeside, set_info-IsBeside,
  dial_failure-IsBeside,
}

-- Every address stands once.
abbrev Once : List Multiaddr → Type 0
Once [] = Unit
Once (a ∷ addrs) = (contains a addrs ≡ false) × Once addrs

-- The listen addresses are a set, and the gauge was moved up as often as down, and once more for
-- each of them.
pub record IsCounted (b : AddressBook) : Type 0 where
  pub once : Once b.listeners
  pub counted : b.metrics.listen_addrs.incs ≡ b.metrics.listen_addrs.decs + length b.listeners

beside-IsCounted : {b b' : AddressBook} → IsBeside (side b) b' → IsCounted b → IsCounted b'
beside-IsCounted h v = ground (arith, h.listeners_kept, h.metrics_kept, v.once, v.counted)

abbrev others : Multiaddr → List Multiaddr → List Multiaddr
others addr addrs = retain (λ a. not (holds (Multiaddr-discrete a addr))) addrs

contains-others :
    (a addr : Multiaddr) (addrs : List Multiaddr)
    → contains a addrs ≡ false
    → contains a (others addr addrs) ≡ false
unfolding any retain
contains-others a addr [] h = refl
contains-others a addr (x ∷ addrs) h = ground (arith, h, contains-others a addr addrs)

others-Once : (addr : Multiaddr) (addrs : List Multiaddr) → Once addrs → Once (others addr addrs)
unfolding any retain
others-Once addr [] h = tt
others-Once addr (x ∷ addrs) h = elim (Bool-cases (holds (Multiaddr-discrete x addr))) [
  | inl e ↦ rw e (others-Once addr addrs h.1)
  | inr e ↦ rw e (contains-others x addr addrs h.0, others-Once addr addrs h.1)
]

length-others :
    (addr : Multiaddr) (addrs : List Multiaddr)
    → Once addrs
    → length addrs ≡ length (others addr addrs) + (if contains addr addrs then 1 else 0)
unfolding any retain
length-others addr [] h = refl
length-others addr (x ∷ addrs) h = elim (Multiaddr-discrete x addr) [
  | yes e ↦
      ground (arith, e, sym (ap (λ a. contains a addrs) e) ∙ h.0, length-others addr addrs h.1)
  | no n ↦ ground (arith, n, length-others addr addrs h.1)
]

snoc-Once :
    (addr : Multiaddr) (addrs : List Multiaddr)
    → contains addr addrs ≡ false
    → Once addrs
    → Once (addrs ++ addr ∷ [])
unfolding any
snoc-Once addr [] n h = (refl, tt)
snoc-Once addr (x ∷ addrs) n h = (
  ground (arith, h.0, n, any-append (λ a. holds (Multiaddr-discrete a x)) addrs (addr ∷ [])),
  snoc-Once addr addrs (ground (arith, n)) h.1,
)

add-IsCounted :
    (b : AddressBook) (addr : Multiaddr) → IsCounted b → IsCounted (add_listen_addr b addr)
unfolding add_listen_addr
add-IsCounted b addr v = elim (Bool-cases (contains addr b.listeners)) [
  | inl e ↦ ground (arith, e, v.once, v.counted)
  | inr e ↦ ground (
    arith,
    e,
    v.counted,
    snoc-Once addr b.listeners e v.once,
    length-append b.listeners (addr ∷ []),
  )
]

remove-IsCounted :
    (b : AddressBook) (addr : Multiaddr) → IsCounted b → IsCounted (remove_listen_addr b addr)
unfolding remove_listen_addr
remove-IsCounted b addr v = elim (Bool-cases (contains addr b.listeners)) [
  | inl e ↦ ground (
    arith,
    e,
    v.counted,
    others-Once addr b.listeners v.once,
    length-others addr b.listeners v.once,
  )
  | inr e ↦ ground (
    arith,
    e,
    v.counted,
    others-Once addr b.listeners v.once,
    length-others addr b.listeners v.once,
  )
]

poll_deferred-IsCounted :
    (b : AddressBook) (due : Option ℕ) → IsCounted b → IsCounted (poll_deferred b due).0
poll_deferred-IsCounted b none v = v
poll_deferred-IsCounted b (some i) v = elim (Option-cases (take_at i b.deferred)) [
  | inl e ↦ ground (arith, e, v.once, v.counted)
  | inr (r, e) ↦ ground (arith, e, v.once, v.counted)
]

poll_actions-IsCounted :
    (b : AddressBook) (due : Option ℕ) (actions : List Action)
    → IsCounted b
    → IsCounted (poll_actions b due actions).0
poll_actions-IsCounted b due (a ∷ rest) v = record { once = v.once; counted = v.counted }
poll_actions-IsCounted b due [] v = poll_deferred-IsCounted b due v

refresh-IsCounted :
    (b : AddressBook) (external : List AddressRecord) → IsCounted b → IsCounted (refresh b external)
refresh-IsCounted b external v = ground (arith, v.once, v.counted)

module _ (ids : PeerIds) (t : Texts) where
  event-IsCounted :
      (b : AddressBook) (event : FromSwarm) (now : ℕ)
      → IsCounted b
      → IsCounted (Swarm.on_swarm_event ids t b event now)
  unfolding Swarm.on_swarm_event State.notify
  event-IsCounted b (Swarm.connection_established peer cp n) now v =
      beside-IsCounted (connection_established-IsBeside ids b peer cp n now) v
  event-IsCounted b (Swarm.address_change peer old new_) now v =
      beside-IsCounted (address_change-IsBeside ids b peer old new_ now) v
  event-IsCounted b (Swarm.dial_failure handler peer_id error) now v =
      beside-IsCounted (dial_failure-IsBeside ids t b handler peer_id error now) v
  event-IsCounted b (Swarm.new_listen_addr id addr) now v =
      let w = add-IsCounted b addr v in record { once = w.once; counted = w.counted }
  event-IsCounted b (Swarm.expired_listen_addr id addr) now v =
      let w = remove-IsCounted b addr v in record { once = w.once; counted = w.counted }
  event-IsCounted b _ now v = record { once = v.once; counted = v.counted }

  step-IsCounted :
      (b : AddressBook) (now : ℕ) (c : Call) → IsCounted b → IsCounted (step ids t b (now, c))
  unfolding step State.swarm_events Swarm.poll
  step-IsCounted b now (dial peer) v = beside-IsCounted (dial-IsBeside b peer) v
  step-IsCounted b now (dial_address peer addr) v =
      beside-IsCounted (dial_address-IsBeside ids b peer addr) v
  step-IsCounted b now (add_address peer addr source) v =
      beside-IsCounted (add_address-IsBeside ids b peer addr source now) v
  step-IsCounted b now (remove_address peer addr) v =
      beside-IsCounted (remove_address-IsBeside ids b peer addr) v
  step-IsCounted b now (prune_peers min_age) v =
      beside-IsCounted (prune_peers-IsBeside b min_age now) v
  step-IsCounted b now (connection_closed peer cp n error) v =
      beside-IsCounted (connection_closed-IsBeside ids t b peer cp n error now) v
  step-IsCounted b now (set_rtt peer rtt) v = beside-IsCounted (set_rtt-IsBeside b peer rtt) v
  step-IsCounted b now (set_info peer info) v =
      beside-IsCounted (set_info-IsBeside ids b peer info now) v
  step-IsCounted b now (swarm_events tx) v = record { once = v.once; counted = v.counted }
  step-IsCounted b now (on_swarm_event event) v = event-IsCounted b event now v
  step-IsCounted b now (poll external due) v =
      poll_actions-IsCounted (refresh b external) due b.actions (refresh-IsCounted b external v)

  -- In every state that calls lead to, if the swarm reports no connection of the node to itself, the
  -- listen addresses are a set, and the gauge of listen addresses has been moved up as often as down,
  -- and once more for each of them.
  pub Reach-IsCounted : {own : PeerId} {b : AddressBook} → Reach ids t own b → IsCounted b
  Reach-IsCounted (start p l k) = record { once = tt; counted = omega arith }
  Reach-IsCounted (next {b} (now, c) r n) = step-IsCounted b now c (Reach-IsCounted r)
