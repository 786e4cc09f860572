-- ===== src/AddressBook/Laws/Writes.antt =====
-- src/net/peers.rs: whose record an operation of the book may write, operation by operation.
use ipfs_embed.Prelude.{
  ◌==◌, ℕ, Bool, true, false, not, ◌&&◌, List, [], ◌∷◌, Option, none, some, ◌≡◌, ◌≢◌, if◌then◌else◌,
  ◌∙◌, lookup-insert, ℕ_discrete, is_empty, ap, if_neg,
}
use ipfs_embed.Multiaddr.{
  Multiaddr, PeerId, PeerIds, ConnectedPoint, normalize_connected_point, remote_address,
  is_loopback, without_peer_id,
}
use ipfs_embed.PeerInfo.{PeerInfo}
use ipfs_embed.PeerInfo.Source.{AddressSource, is_confirmed}
use ipfs_embed.PeerInfo.Failure.{
  Texts, DialError, ConnectionError, transport, dial_peer_condition_false, banned, local_peer_id,
}
use ipfs_embed.AddressBook.State.{
  AddressBook, Event, IntoAddressHandler, get_info, put_info, notify, new_info, contains,
  discovered, connected, disconnected, unreachable, connection_closed as closed_event,
  connection_established as established_event, address_changed as changed_event,
  dial_failure as failure_event,
}
use ipfs_embed.AddressBook.State
use ipfs_embed.AddressBook.Dial
use ipfs_embed.AddressBook.Addresses
use ipfs_embed.AddressBook.Addresses.{undiscovered}
use ipfs_embed.AddressBook.Connections
use ipfs_embed.AddressBook.Failures
use ipfs_embed.AddressBook.Identify

-- The record of the peer `q`, if there is one.
module _ (ids : PeerIds) (t : Texts) (q : PeerId) (o : Option PeerInfo) where
  pub record Has (b : AddressBook) : Type 0 where
    pub same : get_info q b.peers ≡ o

  put-Has :
      (b : AddressBook) (peer : PeerId) (info : PeerInfo)
      → peer ≢ q
      → Has b
      → Has (put_info b peer info)
  put-Has b peer info n h = record {
    same =
        lookup-insert ℕ_discrete peer q info b.peers
        ∙ if_neg (ℕ_discrete peer q) n (some info) (get_info q b.peers)
        ∙ h.same;
  }

  pub if-Has : (test : Bool) {b b' : AddressBook} → Has b → Has b' → Has (if test then b else b')
  if-Has true h k = h
  if-Has false h k = k

  notify-Has : (b : AddressBook) (e : Event) → Has b → Has (notify b e)
  unfolding notify
  notify-Has b e h = record { same = h.same }

  push-Has : (b : AddressBook) (a : State.Action) → Has b → Has (State.push_action b a)
  push-Has b a h = record { same = h.same }

  defer-Has :
      (b : AddressBook) (actions : List State.Action) → Has b → Has (Failures.defer b actions)
  defer-Has b actions h = record { same = h.same }

  pub dial-Has : (b : AddressBook) (peer : PeerId) → Has b → Has (Dial.dial b peer)
  unfolding Dial.dial
  dial-Has b peer h = if-Has _ h (push-Has b _ h)

  pub dial_address-Has :
      (b : AddressBook) (peer : PeerId) (addr : Multiaddr)
      → peer ≢ q
      → Has b
      → Has (Dial.dial_address ids b peer addr)
  unfolding Dial.dial_address
  dial_address-Has b peer addr n h =
      let put = put-Has b peer _ n h in if-Has _ h (if-Has _ put (push-Has _ _ put))

  pub add_address-Has :
      (b : AddressBook) (peer : PeerId) (addr : Multiaddr) (source : AddressSource) (now : ℕ)
      → peer ≢ q
      → Has b
      → Has (Addresses.add_address ids b peer addr source now)
  unfolding Addresses.add_address Addresses.record_address
  add_address-Has b peer addr source now n h =
      let put = put-Has b peer _ n h in
      let recorded = if-Has _ (push-Has _ _ put) put in
      if-Has (peer == b.local_peer_id) h (
        if-Has (not b.enable_loopback && is_loopback addr) h (
          if-Has (contains (without_peer_id addr) b.listeners) h (
            notify-Has _ (new_info peer) (
              if-Has (undiscovered (get_info peer b.peers) && is_confirmed source)
                (notify-Has _ (discovered peer) recorded) recorded))))

  pub without_address-Has :
      (b : AddressBook) (peer : PeerId) (addr : Multiaddr) (i : Option PeerInfo)
      → peer ≢ q
      → Has b
      → Has (Addresses.without_address ids b peer addr i)
  without_address-Has b peer addr none n h = h
  without_address-Has b peer addr (some info) n h = put-Has b peer _ n h

  pub rtt_set-Has :
      (b : AddressBook) (peer : PeerId) (rtt : Option ℕ) (i : Option PeerInfo)
      → peer ≢ q
      → Has b
      → Has (Connections.rtt_set b peer rtt i)
  rtt_set-Has b peer rtt none n h = h
  rtt_set-Has b peer rtt (some info) n h = notify-Has _ (new_info peer) (put-Has b peer _ n h)

  pub connection_closed-Has :
      (b : AddressBook) (peer : PeerId) (cp : ConnectedPoint) (count : ℕ)
      (error : Option ConnectionError) (now : ℕ)
      → peer ≢ q
      → Has b
      → Has (Connections.connection_closed ids t b peer cp count error now)
  unfolding Connections.connection_closed
  connection_closed-Has b peer cp count error now n h =
      let conn = normalize_connected_point ids cp b.local_peer_id peer in
      let put = notify-Has _ (closed_event peer conn) (put-Has b peer _ n h) in
      notify-Has _ (new_info peer) (if-Has (count == 0) (notify-Has _ (disconnected peer) put) put)

  pub connection_established-Has :
      (b : AddressBook) (peer : PeerId) (cp : ConnectedPoint) (others now : ℕ)
      → peer ≢ q
      → Has b
      → Has (Connections.connection_established ids b peer cp others now)
  unfolding Connections.connection_established Connections.note_connection
  connection_established-Has b peer cp others now n h =
      let conn = normalize_connected_point ids cp b.local_peer_id peer in
      let added =
        add_address-Has b peer (remote_address conn) (Connections.source_of conn) now n h in
      let put = put-Has _ peer _ n added in
      notify-Has _ (established_event peer conn)
        (if-Has (others == 0) (notify-Has _ (connected peer) put) put)

  pub address_change-Has :
      (b : AddressBook) (peer : PeerId) (old new_ : ConnectedPoint) (now : ℕ)
      → peer ≢ q
      → Has b
      → Has (Connections.address_change ids b peer old new_ now)
  unfolding Connections.address_change Connections.note_connection Connections.drop_connection
  address_change-Has b peer old new_ now n h =
      let conn = normalize_connected_point ids new_ b.local_peer_id peer in
      let added =
        add_address-Has b peer (remote_address conn) (Connections.source_of conn) now n h in
      let old_conn = normalize_connected_point ids old b.local_peer_id peer in
      notify-Has _ (changed_event peer old_conn conn)
        (put-Has _ peer _ n (put-Has _ peer _ n added))

  notify_all-Has : (b : AddressBook) (es : List Event) → Has b → Has (Failures.notify_all b es)
  unfolding Failures.notify_all
  notify_all-Has b [] h = h
  notify_all-Has b (e ∷ es) h = notify_all-Has (notify b e) es (notify-Has b e h)

  known_peer_failure-Has :
      (b : AddressBook) (peer : PeerId) (own : Option (Multiaddr × ℕ)) (keep_alive : Bool)
      (error : DialError) (now : ℕ) (info : PeerInfo)
      → peer ≢ q
      → Has b
      → Has (Failures.known_peer_failure ids t b peer own keep_alive error now info)
  unfolding Failures.validation_failure Failures.swarm_dial_failure
  known_peer_failure-Has b peer (some (addr, retries)) keep_alive error now info n h =
      let put = put-Has b peer (Failures.validation_failed t info addr error now) n h in
      notify-Has _ (new_info peer) (
        notify-Has _ (failure_event peer addr (t.display error)) (if-Has _ (defer-Has _ _ put) put))
  known_peer_failure-Has b peer none keep_alive (transport errors) now info n h =
      let noted = Failures.note_errors ids t peer b.keep_alive now info errors in
      let put = notify_all-Has _ noted.1 (put-Has b peer noted.0 n h) in
      let noticed = if-Has (is_empty noted.2) (notify-Has _ (unreachable peer) put) put in
      notify-Has _ (new_info peer) (defer-Has _ noted.2 noticed)
  known_peer_failure-Has b peer none keep_alive dial_peer_condition_false now info n h = h
  known_peer_failure-Has b peer none keep_alive banned now info n h = h
  known_peer_failure-Has b peer none keep_alive local_peer_id now info n h = h
  known_peer_failure-Has b peer none keep_alive _ now info n h = notify-Has b (unreachable peer) h

  looked_up_failure-Has :
      (b : AddressBook) (peer : PeerId) (handler : IntoAddressHandler) (error : DialError) (now : ℕ)
      (i : Option PeerInfo)
      → peer ≢ q
      → Has b
      → Has (Failures.looked_up_failure ids t b peer handler error now i)
  looked_up_failure-Has b peer handler error now none n h = h
  looked_up_failure-Has b peer handler error now (some info) n h =
      known_peer_failure-Has b peer handler.own_dial handler.keep_alive error now info n h

  pub peer_failure-Has :
      (b : AddressBook) (handler : IntoAddressHandler) (error : DialError) (now : ℕ)
      (p : Option PeerId)
      → p ≢ some q
      → Has b
      → Has (Failures.peer_failure ids t b handler error now p)
  peer_failure-Has b handler error now none n h = h
  peer_failure-Has b handler error now (some peer) n h =
      looked_up_failure-Has b peer handler error now (get_info peer b.peers) (λ e. n (ap some e)) h

  pub info_set-Has :
      (b : AddressBook) (peer : PeerId) (identify : Identify.Info) (now : ℕ) (i : Option PeerInfo)
      → peer ≢ q
      → Has b
      → Has (Identify.info_set ids b peer identify now i)
  info_set-Has b peer identify now none n h = h
  info_set-Has b peer identify now (some info) n h =
      let put = put-Has b peer _ n h in notify-Has _ (new_info peer) (record { same = put.same })
