-- ===== src/AddressBook/Invariant/Flights.antt =====
-- src/net/peers.rs: the handlers of the dials between the book and the swarm, which takes them
-- by `poll` and hands them back where a dial fails.
use ipfs_embed.Prelude.{
  All, All-append, ℕ, Bool, List, [], ◌∷◌, ◌++◌, Option, none, some, arith, ◌⊎◌, ◌≡◌, subst, sym,
  refl, Option-cases, inl, inr, All-member,
}
use mathlib.Core.List.{Memᴰ}
use ipfs_embed.Multiaddr.{PeerId, PeerIds}
use ipfs_embed.PeerInfo.Failure.{Texts}
use ipfs_embed.AddressBook.State.{AddressBook, Action, AddressRecord, IntoAddressHandler, new}
use ipfs_embed.AddressBook.State
use ipfs_embed.AddressBook.Dial.{new_handler}
use ipfs_embed.AddressBook.Swarm.{
  FromSwarm, Poll, ready, pending, take_at, poll_actions, poll_deferred, refresh, add_listen_addr,
  remove_listen_addr,
}
use ipfs_embed.AddressBook.Swarm
use ipfs_embed.AddressBook.Invariant.Steps.{
  Call, step, dial, dial_address, add_address, remove_address, prune_peers, connection_closed,
  set_rtt, set_info, swarm_events, on_swarm_event, poll, All-take_at,
}
use ipfs_embed.AddressBook.Invariant.Plans.{
  IsPlanned, Planned, Plans, if-Plans, dial-Plans, dial_address-Plans, add_address-Plans,
  remove_address-Plans, prune_peers-Plans, set_rtt-Plans, connection_closed-Plans,
  connection_established-Plans, address_change-Plans,
}
use ipfs_embed.AddressBook.Invariant.Deferrals.{dial_failure-Plans, set_info-Plans}

-- The handler of the dial that `poll` hands to the swarm, if it hands one over.
unfoldable pub handed : Poll → List IntoAddressHandler
handed (ready a) = a.handler ∷ []
handed pending = []

-- The handlers that a call hands to the swarm.
unfoldable pub taken : AddressBook → Call → List IntoAddressHandler
taken b (poll external due) = handed (Swarm.poll b external due).1
taken b _ = []

-- A dial that fails has a handler that the book has handed over before, or one that the swarm has
-- had of `new_handler` for a dial of another behaviour.
abbrev pub Reports : List IntoAddressHandler → AddressBook → Call → Type 0
Reports hs b (on_swarm_event (Swarm.dial_failure h peer_id error)) = Memᴰ h hs ⊎ h ≡ new_handler b
Reports hs b _ = Unit {0}

-- The states that calls lead to from a new book, with the handlers handed over on the way.
pub data Flight (ids : PeerIds) (t : Texts) (keep : Bool)
    : AddressBook → List IntoAddressHandler → Type 0 where
  start :
      (own : PeerId) (reuse loopback : Bool) → Flight ids t keep (new own reuse loopback keep) []
  call :
      {b : AddressBook} {hs : List IntoAddressHandler} (now : ℕ) (c : Call)
      → Flight ids t keep b hs
      → Reports hs b c
      → Flight ids t keep (step ids t b (now, c)) (hs ++ taken b c)

-- The plans of the book, and of the handlers handed over.
pub record Outstanding (keep : Bool) (b : AddressBook) (hs : List IntoAddressHandler) : Type 0 where
  pub plans : Plans keep b
  pub flying : All (IsPlanned keep) hs

module _ (keep : Bool) where
  refresh-Plans :
      (b : AddressBook) (external : List AddressRecord)
      → Plans keep b
      → Plans keep (refresh b external)
  refresh-Plans b external v =
      if-Plans b.refresh_external
        (record { kept = v.kept; actions = v.actions; deferred = v.deferred }) v

  abbrev PolledWell : AddressBook × Poll → Type 0
  PolledWell r = Plans keep r.0 × All (IsPlanned keep) (handed r.1)

  poll_deferred-Plans :
      (b : AddressBook) (due : Option ℕ) → Plans keep b → PolledWell (poll_deferred b due)
  unfolding handed
  poll_deferred-Plans b none v = (v, tt)
  poll_deferred-Plans b (some i) v = elim (Option-cases (take_at i b.deferred)) [
    | inl e ↦ rw (e, poll_deferred) (v, tt)
    | inr ((a, rest), e) ↦
        let k = All-take_at (λ x. IsPlanned keep x.handler) i b.deferred rest a v.deferred e in
        rw (e, poll_deferred)
          (record { kept = v.kept; actions = v.actions; deferred = k.1 }, (k.0, tt))
  ]

  poll_actions-Plans :
      (b : AddressBook) (due : Option ℕ) (actions : List Action)
      → Planned keep actions
      → Plans keep b
      → PolledWell (poll_actions b due actions)
  unfolding handed
  poll_actions-Plans b due (a ∷ rest) h v =
      (record { kept = v.kept; actions = h.1; deferred = v.deferred }, (h.0, tt))
  poll_actions-Plans b due [] h v = poll_deferred-Plans b due v

  poll-Plans :
      (b : AddressBook) (external : List AddressRecord) (due : Option ℕ)
      → Plans keep b
      → PolledWell (Swarm.poll b external due)
  unfolding Swarm.poll
  poll-Plans b external due v =
      poll_actions-Plans (refresh b external) due b.actions v.actions (refresh-Plans b external v)

module _ (ids : PeerIds) (t : Texts) {keep : Bool} where
  reported-IsPlanned :
      (b : AddressBook) (hs : List IntoAddressHandler) (h : IntoAddressHandler)
      → Outstanding keep b hs
      → Memᴰ h hs ⊎ h ≡ new_handler b
      → IsPlanned keep h
  reported-IsPlanned b hs h v (inl m) = All-member (IsPlanned keep) hs v.flying m
  reported-IsPlanned b hs h v (inr e) =
      subst (IsPlanned keep) (sym e)
        (record { kept_open = ground (arith, v.plans.kept); bounded = ground arith })

  event-Plans :
      (b : AddressBook) (hs : List IntoAddressHandler) (event : FromSwarm) (now : ℕ)
      → Reports hs b (on_swarm_event event)
      → Outstanding keep b hs
      → Plans keep (Swarm.on_swarm_event ids t b event now)
  unfolding Swarm.on_swarm_event add_listen_addr remove_listen_addr State.notify
  event-Plans b hs (Swarm.connection_established peer cp n) now r v =
      connection_established-Plans ids b peer cp n now v.plans
  event-Plans b hs (Swarm.address_change peer old new_) now r v =
      address_change-Plans ids b peer old new_ now v.plans
  event-Plans b hs (Swarm.dial_failure h peer_id error) now r v =
      dial_failure-Plans ids t keep b h peer_id error now (reported-IsPlanned b hs h v r) v.plans
  event-Plans b hs _ now r v = record {
    kept = v.plans.kept;
    actions = v.plans.actions;
    deferred = v.plans.deferred;
  }

  step-Plans :
      (b : AddressBook) (hs : List IntoAddressHandler) (now : ℕ) (c : Call)
      → Reports hs b c
      → Outstanding keep b hs
      → Plans keep (step ids t b (now, c))
  unfolding step State.swarm_events
  step-Plans b hs now (dial peer) r v = dial-Plans b peer v.plans
  step-Plans b hs now (dial_address peer addr) r v = dial_address-Plans ids b peer addr v.plans
  step-Plans b hs now (add_address peer addr source) r v =
      add_address-Plans ids b peer addr source now v.plans
  step-Plans b hs now (remove_address peer addr) r v = remove_address-Plans ids b peer addr v.plans
  step-Plans b hs now (prune_peers min_age) r v = prune_peers-Plans b min_age now v.plans
  step-Plans b hs now (connection_closed peer cp n error) r v =
      connection_closed-Plans ids t b peer cp n error now v.plans
  step-Plans b hs now (set_rtt peer rtt) r v = set_rtt-Plans b peer rtt v.plans
  step-Plans b hs now (set_info peer info) r v = set_info-Plans ids t keep b peer info now v.plans
  step-Plans b hs now (swarm_events tx) r v = record {
    kept = v.plans.kept;
    actions = v.plans.actions;
    deferred = v.plans.deferred;
  }
  step-Plans b hs now (on_swarm_event event) r v = event-Plans b hs event now r v
  step-Plans b hs now (poll external due) r v = (poll-Plans keep b external due v.plans).0

  taken-IsPlanned : (b : AddressBook) (c : Call) → Plans keep b → All (IsPlanned keep) (taken b c)
  unfolding taken
  taken-IsPlanned b (poll external due) v = (poll-Plans keep b external due v).1
  taken-IsPlanned b _ v = tt

  -- Where each dial that the swarm reports as failed has a handler that the book has handed over
  -- before, or one of `new_handler`: in every state that calls lead to, each dial that the book
  -- asks for, has put off or has handed over keeps its connection open only if the book is set to,
  -- and has eleven retries at most, which a `u8` holds.
  pub Flight-Outstanding :
      {b : AddressBook} {hs : List IntoAddressHandler}
      → Flight ids t keep b hs
      → Outstanding keep b hs
  Flight-Outstanding (start own reuse loopback) = record {
    plans = record { kept = refl; actions = tt; deferred = tt };
    flying = tt;
  }
  Flight-Outstanding (call {b} {hs} now c f r) =
      let v = Flight-Outstanding f in
      record {
        plans = step-Plans b hs now c r v;
        flying = All-append (IsPlanned keep) hs (taken b c) v.flying (taken-IsPlanned b c v.plans);
      }
