-- ===== src/AddressBook/Invariant/Plans.antt =====
-- src/net/peers.rs: the dials that the book asks for or has put off.
use ipfs_embed.Prelude.{
  All, All-append, ◌==◌, ℕ, Bool, true, false, not, ◌||◌, ◌&&◌, List, [], ◌∷◌, Option, none, some,
  ◌≡◌, refl, ◌≤◌, arith, if◌then◌else◌, ℕ_discrete, remove, ◌∙◌, sym, subst,
}
use ipfs_embed.Multiaddr.{
  Multiaddr, PeerId, PeerIds, ConnectedPoint, normalize_connected_point, remote_address,
  is_loopback, without_peer_id,
}
use ipfs_embed.PeerInfo.{PeerInfo}
use ipfs_embed.PeerInfo.Source.{AddressSource, is_confirmed}
use ipfs_embed.PeerInfo.Failure.{Texts, ConnectionError}
use ipfs_embed.AddressBook.State.{
  AddressBook, Action, Event, IntoAddressHandler, get_info, put_info, push_action, notify, new_info,
  contains, discovered, connected, disconnected, connection_closed as closed_event,
  connection_established as established_event, address_changed as changed_event,
}
use ipfs_embed.AddressBook.Dial
use ipfs_embed.AddressBook.Addresses
use ipfs_embed.AddressBook.Addresses.{undiscovered}
use ipfs_embed.AddressBook.Prune
use ipfs_embed.AddressBook.Connections
use ipfs_embed.AddressBook.Failures

-- The retries that are left after a dial.
abbrev pub retries : Option (Multiaddr × ℕ) → ℕ
retries none = 0
retries (some (addr, n)) = n

-- A handler of a dial of the book: it keeps its connection open only if the book is to, and has at
-- most eleven retries.
pub record IsPlanned (keep : Bool) (h : IntoAddressHandler) : Type 0 where
  pub kept_open : not h.keep_alive || keep ≡ true
  pub bounded : retries h.own_dial ≤ 11

abbrev pub Planned : Bool → List Action → Type 0
Planned keep actions = All (λ a. IsPlanned keep a.handler) actions

pub record Plans (keep : Bool) (b : AddressBook) : Type 0 where
  pub kept : b.keep_alive ≡ keep
  pub actions : Planned keep b.actions
  pub deferred : Planned keep b.deferred

-- Two books with the same plans.
same-Plans :
    {keep : Bool} (b b' : AddressBook)
    → b'.keep_alive ≡ b.keep_alive
    → b'.actions ≡ b.actions
    → b'.deferred ≡ b.deferred
    → Plans keep b
    → Plans keep b'
same-Plans {keep} b b' k a d v = record {
  kept = k ∙ v.kept;
  actions = subst (Planned keep) (sym a) v.actions;
  deferred = subst (Planned keep) (sym d) v.deferred;
}

pub push-Plans :
    {keep : Bool} (b : AddressBook) (a : Action)
    → IsPlanned keep a.handler
    → Plans keep b
    → Plans keep (push_action b a)
push-Plans b a p v = record {
  kept = v.kept;
  actions = All-append _ b.actions (a ∷ []) v.actions (p, tt);
  deferred = v.deferred;
}

pub defer-Plans :
    {keep : Bool} (b : AddressBook) (actions : List Action)
    → Planned keep actions
    → Plans keep b
    → Plans keep (Failures.defer b actions)
defer-Plans b actions p v = record {
  kept = v.kept;
  actions = v.actions;
  deferred = All-append _ b.deferred actions v.deferred p;
}

pub notify-Plans :
    {keep : Bool} (b : AddressBook) (e : Event) → Plans keep b → Plans keep (notify b e)
unfolding notify
notify-Plans b e v = record { kept = v.kept; actions = v.actions; deferred = v.deferred }

pub put-Plans :
    {keep : Bool} (b : AddressBook) (peer : PeerId) (info : PeerInfo)
    → Plans keep b
    → Plans keep (put_info b peer info)
put-Plans b peer info v = record { kept = v.kept; actions = v.actions; deferred = v.deferred }

pub if-Plans :
    {keep : Bool} (test : Bool) {b b' : AddressBook}
    → Plans keep b
    → Plans keep b'
    → Plans keep (if test then b else b')
if-Plans true v w = v
if-Plans false v w = w

module _ {keep : Bool} where
  pub dial-Plans : (b : AddressBook) (peer : PeerId) → Plans keep b → Plans keep (Dial.dial b peer)
  unfolding Dial.dial
  dial-Plans b peer v =
      if-Plans _ v
        (push-Plans b _ (record { kept_open = ground (arith, v.kept); bounded = ground arith }) v)

  pub dial_address-Plans :
      (ids : PeerIds) (b : AddressBook) (peer : PeerId) (addr : Multiaddr)
      → Plans keep b
      → Plans keep (Dial.dial_address ids b peer addr)
  unfolding Dial.dial_address
  dial_address-Plans ids b peer addr v = if-Plans _ v (
      if-Plans _ (put-Plans b peer _ v) (
        push-Plans _ _ (record { kept_open = ground (arith, v.kept); bounded = ground arith })
          (put-Plans b peer _ v)))

  record_address-Plans :
      (ids : PeerIds) (b : AddressBook) (peer : PeerId) (addr : Multiaddr) (source : AddressSource)
      (now : ℕ)
      → Plans keep b
      → Plans keep (Addresses.record_address ids b peer addr source now)
  unfolding Addresses.record_address
  record_address-Plans ids b peer addr source now v =
      if-Plans _
        (push-Plans _ _ (record { kept_open = refl; bounded = ground arith })
          (put-Plans b peer _ v))
        (put-Plans b peer _ v)

  pub add_address-Plans :
      (ids : PeerIds) (b : AddressBook) (peer : PeerId) (addr : Multiaddr) (source : AddressSource)
      (now : ℕ)
      → Plans keep b
      → Plans keep (Addresses.add_address ids b peer addr source now)
  unfolding Addresses.add_address
  add_address-Plans ids b peer addr source now v =
      let recorded = record_address-Plans ids b peer addr source now v in
      if-Plans (peer == b.local_peer_id) v (
        if-Plans (not b.enable_loopback && is_loopback addr) v (
          if-Plans (contains (without_peer_id addr) b.listeners) v (
            notify-Plans _ (new_info peer) (
              if-Plans (undiscovered (get_info peer b.peers) && is_confirmed source)
                (notify-Plans _ (discovered peer) recorded) recorded))))

  without_address-Plans :
      (ids : PeerIds) (b : AddressBook) (peer : PeerId) (addr : Multiaddr) (o : Option PeerInfo)
      → Plans keep b
      → Plans keep (Addresses.without_address ids b peer addr o)
  without_address-Plans ids b peer addr none v = v
  without_address-Plans ids b peer addr (some info) v = put-Plans b peer _ v

  pub remove_address-Plans :
      (ids : PeerIds) (b : AddressBook) (peer : PeerId) (addr : Multiaddr)
      → Plans keep b
      → Plans keep (Addresses.remove_address ids b peer addr)
  unfolding Addresses.remove_address
  remove_address-Plans ids b peer addr v =
      without_address-Plans ids b peer addr (get_info peer b.peers) v

  remove_peers-Plans :
      (b : AddressBook) (peers : List PeerId)
      → Plans keep b
      → Plans keep (Prune.remove_peers b peers)
  unfolding Prune.remove_peers
  remove_peers-Plans b [] v = v
  remove_peers-Plans b (p ∷ peers) v =
      let b' = record b { peers = remove ℕ_discrete p b.peers } in
      remove_peers-Plans (notify b' (new_info p)) peers (
        notify-Plans b' (new_info p)
          (record { kept = v.kept; actions = v.actions; deferred = v.deferred }))

  pub prune_peers-Plans :
      (b : AddressBook) (min_age now : ℕ)
      → Plans keep b
      → Plans keep (Prune.prune_peers b min_age now)
  unfolding Prune.prune_peers
  prune_peers-Plans b min_age now v = remove_peers-Plans b (Prune.to_remove min_age now b.peers) v

  rtt_set-Plans :
      (b : AddressBook) (peer : PeerId) (rtt : Option ℕ) (o : Option PeerInfo)
      → Plans keep b
      → Plans keep (Connections.rtt_set b peer rtt o)
  rtt_set-Plans b peer rtt none v = v
  rtt_set-Plans b peer rtt (some info) v = notify-Plans _ (new_info peer) (put-Plans b peer _ v)

  pub set_rtt-Plans :
      (b : AddressBook) (peer : PeerId) (rtt : Option ℕ)
      → Plans keep b
      → Plans keep (Connections.set_rtt b peer rtt)
  unfolding Connections.set_rtt
  set_rtt-Plans b peer rtt v = rtt_set-Plans b peer rtt (get_info peer b.peers) v

  pub connection_closed-Plans :
      (ids : PeerIds) (t : Texts) (b : AddressBook) (peer : PeerId) (cp : ConnectedPoint) (n : ℕ)
      (error : Option ConnectionError) (now : ℕ)
      → Plans keep b
      → Plans keep (Connections.connection_closed ids t b peer cp n error now)
  unfolding Connections.connection_closed
  connection_closed-Plans ids t b peer cp n error now v =
      let conn = normalize_connected_point ids cp b.local_peer_id peer in
      let put = notify-Plans _ (closed_event peer conn) (put-Plans b peer _ v) in
      notify-Plans _ (new_info peer)
        (if-Plans (n == 0) (notify-Plans _ (disconnected peer) put) put)

  pub connection_established-Plans :
      (ids : PeerIds) (b : AddressBook) (peer : PeerId) (cp : ConnectedPoint) (others now : ℕ)
      → Plans keep b
      → Plans keep (Connections.connection_established ids b peer cp others now)
  unfolding Connections.connection_established Connections.note_connection
  connection_established-Plans ids b peer cp others now v =
      let conn = normalize_connected_point ids cp b.local_peer_id peer in
      let added =
        add_address-Plans ids b peer (remote_address conn) (Connections.source_of conn) now v in
      let put = put-Plans _ peer _ added in
      notify-Plans _ (established_event peer conn)
        (if-Plans (others == 0) (notify-Plans _ (connected peer) put) put)

  pub address_change-Plans :
      (ids : PeerIds) (b : AddressBook) (peer : PeerId) (old new_ : ConnectedPoint) (now : ℕ)
      → Plans keep b
      → Plans keep (Connections.address_change ids b peer old new_ now)
  unfolding Connections.address_change Connections.note_connection Connections.drop_connection
      notify
  address_change-Plans ids b peer old new_ now v =
      let conn = normalize_connected_point ids new_ b.local_peer_id peer in
      let added =
        add_address-Plans ids b peer (remote_address conn) (Connections.source_of conn) now v in
      let old_conn = normalize_connected_point ids old b.local_peer_id peer in
      notify-Plans _ (changed_event peer old_conn conn)
        (put-Plans _ peer _ (put-Plans _ peer _ added))
