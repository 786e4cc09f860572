-- ===== src/AddressBook/Invariant/Ops/Simple.antt =====
-- src/net/peers.rs: dials, addresses, connections, pruning and polling keep the invariant.
use ipfs_embed.Prelude.{
  remove, ℕ_discrete, ℕ, ◌≢◌, ◌≡◌, ◌==◌, ◌&&◌, true, false, not, List, [], ◌∷◌, Option, arith,
  Bool-cases, inl, inr, Option-cases,
}
use ipfs_embed.Multiaddr.{
  Multiaddr, PeerId, PeerIds, ConnectedPoint, dialer, listener, has_peer_id, normalize_addr,
  normalize_connected_point, remote_address, is_loopback, without_peer_id,
}
use ipfs_embed.Multiaddr.Laws.{has_peer_id-normalize_addr}
use ipfs_embed.PeerInfo.{PeerInfo, ingest_address}
use ipfs_embed.PeerInfo
use ipfs_embed.PeerInfo.Source.{AddressSource, is_confirmed, direction}
use ipfs_embed.PeerInfo.Failure.{Texts, ConnectionError}
use ipfs_embed.AddressBook.State.{
  new_info, notify, AddressBook, get_info, or_default, contains, connected_at, put_info,
}
use ipfs_embed.AddressBook.Dial.{dial, dial_address}
use ipfs_embed.AddressBook.Addresses.{record_address, add_address, remove_address, undiscovered}
use ipfs_embed.AddressBook.Prune.{remove_peers, prune_peers}
use ipfs_embed.AddressBook.Connections.{
  forget_connection, connection_closed, set_rtt, note_connection, drop_connection,
  connection_established, address_change, source_of,
}
use ipfs_embed.AddressBook.Invariant.Info.{
  ingest_address-IsValid, push_failure-IsValid, remove_address-IsValid, connect-IsValid,
  disconnect-IsValid,
}
use ipfs_embed.AddressBook.Invariant.Book.{
  IsValid, notify-IsValid, put_info-IsValid, forget-IsValid, push_action-IsValid, get_info-IsValid,
  or_default-IsValid,
}

ne_of_== : (a b : ℕ) → (a == b) ≡ false → a ≢ b
ne_of_== a b h = ground arith

pub dial-IsValid : (b : AddressBook) (peer : PeerId) → IsValid b → IsValid (dial b peer)
unfolding dial
dial-IsValid b peer v = elim (Bool-cases (peer == b.local_peer_id)) [
  | inl e ↦ rw e v
  | inr e ↦ rw e (push_action-IsValid b _ (ne_of_== _ _ e) v)
]

module _ (ids : PeerIds) where
  pub dial_address-IsValid :
      (b : AddressBook) (peer : PeerId) (addr : Multiaddr)
      → IsValid b
      → IsValid (dial_address ids b peer addr)
  unfolding dial_address
  dial_address-IsValid b peer addr v = elim (Bool-cases (peer == b.local_peer_id)) [
    | inl e ↦ rw e v
    | inr e ↦
        let n = ne_of_== _ _ e in
        let v' =
          put_info-IsValid b peer (or_default peer b.peers) n (or_default-IsValid b peer v) v in
        elim (Bool-cases (connected_at (or_default peer b.peers) (normalize_addr ids addr peer))) [
          | inl c ↦ rw e (rw c v')
          | inr c ↦ rw e (rw c (push_action-IsValid _ _ n v'))
        ]
  ]

  pub record_address-IsValid :
      (b : AddressBook) (peer : PeerId) (addr : Multiaddr) (source : AddressSource) (now : ℕ)
      → peer ≢ b.local_peer_id
      → IsValid b
      → IsValid (record_address ids b peer addr source now)
  unfolding record_address
  record_address-IsValid b peer addr source now n v =
      let full = normalize_addr ids addr peer in
      let r = ingest_address (or_default peer b.peers) full source now in
      let v' : IsValid (put_info b peer r.0) =
        put_info-IsValid b peer r.0 n
          (ingest_address-IsValid (or_default peer b.peers) full source now
            (has_peer_id-normalize_addr ids addr peer) (or_default-IsValid b peer v))
          v in
      elim (Bool-cases (r.1 && not (connected_at r.0 full))) [
        | inl c ↦ rw c (push_action-IsValid _ _ n v')
        | inr c ↦ rw c v'
      ]

  pub add_address-IsValid :
      (b : AddressBook) (peer : PeerId) (addr : Multiaddr) (source : AddressSource) (now : ℕ)
      → IsValid b
      → IsValid (add_address ids b peer addr source now)
  unfolding add_address
  add_address-IsValid b peer addr source now v = elim (Bool-cases (peer == b.local_peer_id)) [
    | inl e ↦ rw e v
    | inr e ↦ elim (Bool-cases (not b.enable_loopback && is_loopback addr)) [
      | inl l ↦ rw (e, l) v
      | inr l ↦ elim (Bool-cases (contains (without_peer_id addr) b.listeners)) [
        | inl c ↦ rw (e, l, c) v
        | inr c ↦
            let v' = record_address-IsValid b peer addr source now (ne_of_== _ _ e) v in
            elim (Bool-cases (undiscovered (get_info peer b.peers) && is_confirmed source)) [
              | inl d ↦ rw (e, l, c, d) (notify-IsValid _ _ (notify-IsValid _ _ v'))
              | inr d ↦ rw (e, l, c, d) (notify-IsValid _ _ v')
            ]
      ]
    ]
  ]

  pub remove_address-IsValid' :
      (b : AddressBook) (peer : PeerId) (addr : Multiaddr)
      → IsValid b
      → IsValid (remove_address ids b peer addr)
  unfolding remove_address
  remove_address-IsValid' b peer addr v = elim (Option-cases (get_info peer b.peers)) [
    | inl e ↦ rw e v
    | inr (info, e) ↦
        let (n, i) = get_info-IsValid b peer info e v in
        rw e (put_info-IsValid b peer _ n (remove_address-IsValid info _ i) v)
  ]

  remote-ends :
      (cp : ConnectedPoint) (local remote : PeerId)
      → has_peer_id (remote_address (normalize_connected_point ids cp local remote)) ≡ true
  unfolding normalize_connected_point
  remote-ends (dialer address role) local remote = has_peer_id-normalize_addr ids address remote
  remote-ends (listener local_addr send_back) local remote =
      has_peer_id-normalize_addr ids send_back remote

  pub connection_closed-IsValid :
      (t : Texts) (b : AddressBook) (peer : PeerId) (cp : ConnectedPoint) (num_established : ℕ)
      (error : Option ConnectionError) (now : ℕ)
      → peer ≢ b.local_peer_id
      → IsValid b
      → IsValid (connection_closed ids t b peer cp num_established error now)
  unfolding connection_closed forget_connection
  connection_closed-IsValid t b peer cp num_established error now n v =
      let info = or_default peer b.peers in
      let conn = normalize_connected_point ids cp b.local_peer_id peer in
      let i = disconnect-IsValid info (remote_address conn) (or_default-IsValid b peer v) in
      let v' =
        notify-IsValid _ _ (
          put_info-IsValid b peer _ n (push_failure-IsValid _ (remote_address conn) _ false i) v) in
      elim (Bool-cases (num_established == 0)) [
        | inl e ↦ rw e (notify-IsValid _ _ (notify-IsValid _ _ v'))
        | inr e ↦ rw e (notify-IsValid _ _ v')
      ]

  local-add_address :
      (b : AddressBook) (peer : PeerId) (addr : Multiaddr) (source : AddressSource) (now : ℕ)
      → (add_address ids b peer addr source now).local_peer_id ≡ b.local_peer_id
  unfolding add_address record_address notify
  local-add_address b peer addr source now = ground arith

  pub note_connection-IsValid :
      (b : AddressBook) (peer : PeerId) (conn : ConnectedPoint) (now : ℕ)
      → peer ≢ b.local_peer_id
      → has_peer_id (remote_address conn) ≡ true
      → IsValid b
      → IsValid (note_connection b peer conn now)
  unfolding note_connection
  note_connection-IsValid b peer conn now n e v =
      put_info-IsValid b peer _ n
        (connect-IsValid (or_default peer b.peers) (remote_address conn) (now, direction conn) e
          (or_default-IsValid b peer v))
        v

  pub connection_established-IsValid :
      (b : AddressBook) (peer : PeerId) (cp : ConnectedPoint) (others now : ℕ)
      → peer ≢ b.local_peer_id
      → IsValid b
      → IsValid (connection_established ids b peer cp others now)
  unfolding connection_established
  connection_established-IsValid b peer cp others now n v =
      let conn = normalize_connected_point ids cp b.local_peer_id peer in
      let b' = add_address ids b peer (remote_address conn) (source_of conn) now in
      let n' : peer ≢ b'.local_peer_id =
        rw (local-add_address b peer (remote_address conn) (source_of conn) now) n in
      let v' =
        note_connection-IsValid b' peer conn now n' (remote-ends cp b.local_peer_id peer)
          (add_address-IsValid b peer _ _ now v) in
      elim (Bool-cases (others == 0)) [
        | inl e ↦ rw e (notify-IsValid _ _ (notify-IsValid _ _ v'))
        | inr e ↦ rw e (notify-IsValid _ _ v')
      ]

  pub address_change-IsValid :
      (b : AddressBook) (peer : PeerId) (old new : ConnectedPoint) (now : ℕ)
      → peer ≢ b.local_peer_id
      → IsValid b
      → IsValid (address_change ids b peer old new now)
  unfolding address_change drop_connection
  address_change-IsValid b peer old new now n v =
      let conn = normalize_connected_point ids new b.local_peer_id peer in
      let b' = add_address ids b peer (remote_address conn) (source_of conn) now in
      let n' : peer ≢ b'.local_peer_id =
        rw (local-add_address b peer (remote_address conn) (source_of conn) now) n in
      let v' = add_address-IsValid b peer (remote_address conn) (source_of conn) now v in
      notify-IsValid _ _ (
        note_connection-IsValid _ peer conn now n' (remote-ends new b.local_peer_id peer) (
          put_info-IsValid b' peer _ n'
            (disconnect-IsValid (or_default peer b'.peers) _ (or_default-IsValid b' peer v')) v'))

pub set_rtt-IsValid :
    (b : AddressBook) (peer : PeerId) (rtt : Option ℕ) → IsValid b → IsValid (set_rtt b peer rtt)
unfolding set_rtt PeerInfo.set_rtt
set_rtt-IsValid b peer rtt v = elim (Option-cases (get_info peer b.peers)) [
  | inl e ↦ rw e v
  | inr (info, e) ↦
      let (n, i) = get_info-IsValid b peer info e v in
      rw e (
        notify-IsValid _ _ (
          put_info-IsValid b peer _ n
            (record {
              addresses_end = i.addresses_end;
              connections_end = i.connections_end;
              failures_bounded = i.failures_bounded;
            })
            v))
]

pub remove_peers-IsValid :
    (b : AddressBook) (peers : List PeerId) → IsValid b → IsValid (remove_peers b peers)
unfolding remove_peers
remove_peers-IsValid b [] v = v
remove_peers-IsValid b (peer ∷ rest) v =
    let b' = record b { peers = remove ℕ_discrete peer b.peers } in
    remove_peers-IsValid (notify b' (new_info peer)) rest
      (notify-IsValid b' (new_info peer) (forget-IsValid b peer v))

pub prune_peers-IsValid :
    (b : AddressBook) (min_age now : ℕ) → IsValid b → IsValid (prune_peers b min_age now)
unfolding prune_peers
prune_peers-IsValid b min_age now v = remove_peers-IsValid b _ v
