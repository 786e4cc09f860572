-- ===== src/AddressBook/Failures.antt =====
-- src/net/peers.rs: `dial_failure`. Time does not pass in the model: a redial is deferred, and which
-- deferred one is due is up to the environment (`poll`).
use ipfs_embed.Prelude.{◌*◌, ◌/◌, ◌+◌}
use ipfs_embed.Prelude.{
  ℕ, ◌-◌, Bool, true, false, ◌&&◌, ◌||◌, List, [], ◌∷◌, ◌++◌, Option, none, some, ltb, or_else, any,
  remove, if◌then◌else◌, is_empty,
}
use ipfs_embed.Multiaddr.{
  Multiaddr, Multiaddr-discrete, PeerId, PeerIds, normalize_addr, without_peer_id,
}
use ipfs_embed.PeerInfo.{PeerInfo, push_failure}
use ipfs_embed.PeerInfo.Failure.{
  DialError, connection_io, transport, wrong_peer_id, dial_peer_condition_false, banned,
  local_peer_id, TransportError, Texts, dial_failure_of, transport_failure_of, is_sim_open,
}
use ipfs_embed.AddressBook.State.{
  AddressBook, Action, IntoAddressHandler, handler_peer_id, Event, dial_failure as failure_event,
  new_info, unreachable, sim_open_retries, get_info, put_info, notify,
}

-- the delay of a redial, in nanoseconds, at a random `u32`
unfoldable pub redial_delay : Bool → ℕ → ℕ
redial_delay port_reuse random =
    1000000000 * random / 4294967295 + (if port_reuse then 1000000000 else 0)

abbrev pub is_transport : DialError → Bool
is_transport (transport v) = true
is_transport _ = false

abbrev pub is_wrong_peer : DialError → Bool
is_wrong_peer (wrong_peer_id obtained) = true
is_wrong_peer _ = false

abbrev pub is_connection_io : DialError → Bool
is_connection_io (connection_io e) = true
is_connection_io _ = false

abbrev pub probe_result_of : DialError → Bool
probe_result_of error = is_transport error || is_wrong_peer error || is_connection_io error

abbrev pub any_sim_open : DialError → Bool
any_sim_open (transport v) = any (λ e. is_sim_open e.1) v
any_sim_open _ = false

-- the peer's record after the failure of a validation dial of `addr`
unfoldable pub validation_failed : Texts → PeerInfo → Multiaddr → DialError → ℕ → PeerInfo
validation_failed t info addr error now =
    let info' =
      push_failure info addr (dial_failure_of t (without_peer_id addr) error now)
        (probe_result_of error) in
    if is_wrong_peer error
    then record info' { addresses = remove Multiaddr-discrete addr info'.addresses }
    else info'

abbrev pub redial : PeerId → Multiaddr → ℕ → Bool → Action
redial peer addr retries keep_alive = record {
  opts = record { peer = peer; always = false; addresses = addr ∷ [] };
  handler = record { own_dial = some (addr, retries); keep_alive = keep_alive };
}

abbrev pub defer : AddressBook → List Action → AddressBook
defer b actions = record b { deferred = b.deferred ++ actions }

-- the arm for a handler with an `own_dial`
unfoldable pub validation_failure :
    Texts → AddressBook → PeerId → PeerInfo → Multiaddr → ℕ → Bool → DialError → ℕ → AddressBook
validation_failure t b peer info addr retries keep_alive error now =
    let b' = put_info b peer (validation_failed t info addr error now) in
    let b'' =
      if any_sim_open error && ltb 0 retries
      then defer b' (redial peer addr (retries - 1) keep_alive ∷ [])
      else b' in
    notify (notify b'' (failure_event peer addr (t.display error))) (new_info peer)

-- the loop over the errors of a dial of the swarm: the record, the events and the redials
unfoldable pub note_errors :
    PeerIds
    → Texts
    → PeerId
    → Bool
    → ℕ
    → PeerInfo
    → List (Multiaddr × TransportError)
    → PeerInfo × List Event × List Action
note_errors ids t peer keep_alive now info [] = (info, [], [])
note_errors ids t peer keep_alive now info ((addr, error) ∷ rest) =
    let info' =
      push_failure info (normalize_addr ids addr peer)
        (transport_failure_of t (without_peer_id addr) error now) true in
    let (info'', events, redials) = note_errors ids t peer keep_alive now info' rest in
    (
      info'',
      failure_event peer addr (t.debug_transport error) ∷ events,
      if is_sim_open error then redial peer addr sim_open_retries keep_alive ∷ redials else redials,
    )

unfoldable pub notify_all : AddressBook → List Event → AddressBook
notify_all b [] = b
notify_all b (event ∷ events) = notify_all (notify b event) events

unfoldable pub swarm_dial_failure :
    PeerIds
    → Texts
    → AddressBook
    → PeerId
    → PeerInfo
    → List (Multiaddr × TransportError)
    → ℕ
    → AddressBook
swarm_dial_failure ids t b peer info v now =
    let (info', events, redials) = note_errors ids t peer b.keep_alive now info v in
    let b' = notify_all (put_info b peer info') events in
    let b'' = if is_empty redials then notify b' (unreachable peer) else b' in
    notify (defer b'' redials) (new_info peer)

abbrev pub known_peer_failure :
    PeerIds
    → Texts
    → AddressBook
    → PeerId
    → Option (Multiaddr × ℕ)
    → Bool
    → DialError
    → ℕ
    → PeerInfo
    → AddressBook
known_peer_failure ids t b peer (some (addr, retries)) keep_alive error now info =
    validation_failure t b peer info addr retries keep_alive error now
known_peer_failure ids t b peer none keep_alive (transport v) now info =
    swarm_dial_failure ids t b peer info v now
known_peer_failure ids t b peer none keep_alive dial_peer_condition_false now info = b
known_peer_failure ids t b peer none keep_alive banned now info = b
known_peer_failure ids t b peer none keep_alive local_peer_id now info = b
known_peer_failure ids t b peer none keep_alive _ now info = notify b (unreachable peer)

abbrev pub looked_up_failure :
    PeerIds
    → Texts
    → AddressBook
    → PeerId
    → IntoAddressHandler
    → DialError
    → ℕ
    → Option PeerInfo
    → AddressBook
looked_up_failure ids t b peer handler error now none = b
looked_up_failure ids t b peer handler error now (some info) =
    known_peer_failure ids t b peer handler.own_dial handler.keep_alive error now info

abbrev pub peer_failure :
    PeerIds → Texts → AddressBook → IntoAddressHandler → DialError → ℕ → Option PeerId → AddressBook
peer_failure ids t b handler error now none = b
peer_failure ids t b handler error now (some peer) =
    looked_up_failure ids t b peer handler error now (get_info peer b.peers)

unfoldable pub dial_failure :
    PeerIds → Texts → AddressBook → IntoAddressHandler → Option PeerId → DialError → ℕ → AddressBook
dial_failure ids t b handler peer_id error now =
    peer_failure ids t b handler error now (or_else (handler_peer_id ids handler.own_dial) peer_id)
