-- ===== src/AddressBook/Swarm.antt =====
-- src/net/peers.rs: `impl NetworkBehaviour for AddressBook`, what the swarm asks of the book.
use ipfs_embed.Prelude.{
  ℕ, zero, suc, Bool, true, false, List, [], ◌∷◌, ◌++◌, Option, none, some, String, if◌then◌else◌,
  retain, not, holds,
}
use ipfs_embed.Multiaddr.{
  Multiaddr, Multiaddr-discrete, PeerId, PeerIds, ConnectedPoint, normalize_addr,
}
use ipfs_embed.PeerInfo.Failure.{DialError, Texts}
use ipfs_embed.AddressBook.State.{
  AddressBook, Action, AddressRecord, IntoAddressHandler, ListenerId, Metrics, inc, dec, contains,
  notify,
}
use ipfs_embed.AddressBook.State
use ipfs_embed.AddressBook.Connections
use ipfs_embed.AddressBook.Failures

-- `FromSwarm`, with the fields that the handler reads
pub data FromSwarm : Type 0 where
  connection_established : PeerId → ConnectedPoint → ℕ → FromSwarm
  connection_closed : FromSwarm
  address_change : PeerId → ConnectedPoint → ConnectedPoint → FromSwarm
  dial_failure : IntoAddressHandler → Option PeerId → DialError → FromSwarm
  listen_failure : FromSwarm
  new_listener : ListenerId → FromSwarm
  new_listen_addr : ListenerId → Multiaddr → FromSwarm
  expired_listen_addr : ListenerId → Multiaddr → FromSwarm
  listener_error : ListenerId → String → FromSwarm
  listener_closed : ListenerId → FromSwarm
  new_external_addr : Multiaddr → FromSwarm
  expired_external_addr : Multiaddr → FromSwarm

abbrev pub count_new_listen_addr : Bool → Metrics → Metrics
count_new_listen_addr true m = m
count_new_listen_addr false m = record m { listen_addrs = inc m.listen_addrs }

abbrev pub count_expired_listen_addr : Bool → Metrics → Metrics
count_expired_listen_addr true m = record m { listen_addrs = dec m.listen_addrs }
count_expired_listen_addr false m = m

-- `listeners.insert(addr)`, and the gauge that goes with it
unfoldable pub add_listen_addr : AddressBook → Multiaddr → AddressBook
add_listen_addr b addr = record b {
  listeners = if contains addr b.listeners then b.listeners else b.listeners ++ addr ∷ [];
  metrics = count_new_listen_addr (contains addr b.listeners) b.metrics;
}

-- `listeners.remove(addr)`, and the gauge that goes with it
unfoldable pub remove_listen_addr : AddressBook → Multiaddr → AddressBook
remove_listen_addr b addr = record b {
  listeners = retain (λ a. not (holds (Multiaddr-discrete a addr))) b.listeners;
  metrics = count_expired_listen_addr (contains addr b.listeners) b.metrics;
}

unfoldable pub on_swarm_event : PeerIds → Texts → AddressBook → FromSwarm → ℕ → AddressBook
on_swarm_event ids t b (connection_established peer endpoint other_established) now =
    Connections.connection_established ids b peer endpoint other_established now
on_swarm_event ids t b connection_closed now = b
on_swarm_event ids t b (address_change peer old new) now =
    Connections.address_change ids b peer old new now
on_swarm_event ids t b (dial_failure handler peer_id error) now =
    Failures.dial_failure ids t b handler peer_id error now
on_swarm_event ids t b listen_failure now = b
on_swarm_event ids t b (new_listener id) now =
    notify
      (record b { metrics = record (b.metrics) { listener_count = inc b.metrics.listener_count } })
      (State.new_listener id)
on_swarm_event ids t b (new_listen_addr id addr) now =
    notify (add_listen_addr b addr) (State.new_listen_addr id addr)
on_swarm_event ids t b (expired_listen_addr id addr) now =
    notify (remove_listen_addr b addr) (State.expired_listen_addr id addr)
on_swarm_event ids t b (listener_error id err) now =
    notify
      (record b {
        metrics = record (b.metrics) { listener_errors = inc b.metrics.listener_errors };
      })
      (State.listener_error id err)
on_swarm_event ids t b (listener_closed id) now =
    notify
      (record b { metrics = record (b.metrics) { listener_count = dec b.metrics.listener_count } })
      (State.listener_closed id)
on_swarm_event ids t b (new_external_addr addr) now =
    notify
      (record b {
        refresh_external = true;
        metrics = record (b.metrics) { external_addrs = inc b.metrics.external_addrs };
      })
      (State.new_external_addr (normalize_addr ids addr b.local_peer_id))
on_swarm_event ids t b (expired_external_addr addr) now =
    notify
      (record b {
        refresh_external = true;
        metrics = record (b.metrics) { external_addrs = dec b.metrics.external_addrs };
      })
      (State.expired_external_addr (normalize_addr ids addr b.local_peer_id))

pub data Poll : Type 0 where
  ready : Action → Poll
  pending : Poll

-- takes out the element at a position
unfoldable pub take_at {ℓ} : {A : Type ℓ} → ℕ → List A → Option (A × List A)
take_at i [] = none
take_at zero (x ∷ xs) = some (x, xs)
take_at (suc i) (x ∷ xs) = elim (take_at i xs) [ none ↦ none | some (y, rest) ↦ some (y, x ∷ rest) ]

abbrev pub poll_deferred : AddressBook → Option ℕ → AddressBook × Poll
poll_deferred b none = (b, pending)
poll_deferred b (some i) = elim (take_at i b.deferred) [
  | none ↦ (b, pending)
  | some (action, rest) ↦ (record b { deferred = rest }, ready action)
]

abbrev pub poll_actions : AddressBook → Option ℕ → List Action → AddressBook × Poll
poll_actions b due (action ∷ rest) = (record b { actions = rest }, ready action)
poll_actions b due [] = poll_deferred b due

abbrev pub refresh : AddressBook → List AddressRecord → AddressBook
refresh b external_addresses =
    if b.refresh_external
    then record b { refresh_external = false; external = external_addresses }
    else b

-- `due` is the deferred redial whose timer has run out, if one has
unfoldable pub poll : AddressBook → List AddressRecord → Option ℕ → AddressBook × Poll
poll b external_addresses due = poll_actions (refresh b external_addresses) due b.actions
