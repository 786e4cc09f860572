-- ===== src/AddressBook/Invariant/Ops/Failing.antt =====
-- src/net/peers.rs: `dial_failure` keeps the invariant.
use ipfs_embed.Prelude.{
  true, false, if◌then◌else◌, ℕ, ◌≢◌, ◌≡◌, ◌&&◌, Bool, List, [], ◌∷◌, Option, none, some, All,
  All-append, ltb, Bool-cases, inl, inr, Option-cases, is_empty, or_else, refl,
}
use ipfs_embed.Multiaddr.{Multiaddr, PeerId, PeerIds, normalize_addr, without_peer_id}
use ipfs_embed.PeerInfo.{PeerInfo, push_failure}
use ipfs_embed.PeerInfo.Failure.{
  DialError, TransportError, Texts, connection_io, transport, wrong_peer_id,
  dial_peer_condition_false, banned, local_peer_id, other_dial, is_sim_open, transport_failure_of,
}
use ipfs_embed.AddressBook.State.{
  AddressBook, Action, Event, IntoAddressHandler, handler_peer_id, get_info, put_info, notify,
  unreachable, new_info,
}
use ipfs_embed.AddressBook.Failures.{
  validation_failed, validation_failure, note_errors, notify_all, swarm_dial_failure,
  known_peer_failure, peer_failure, dial_failure, is_wrong_peer, any_sim_open, defer,
}
use ipfs_embed.AddressBook.Invariant.Info.{
  InfoIsValid, push_failure-IsValid, remove_address-IsValid,
}
use ipfs_embed.AddressBook.Invariant.Book.{
  IsValid, IsForeign, notify-IsValid, put_info-IsValid, get_info-IsValid,
}

pub defer-IsValid :
    (b : AddressBook) (actions : List Action)
    → All (IsForeign b.local_peer_id) actions
    → IsValid b
    → IsValid (defer b actions)
defer-IsValid b actions h v = record {
  peers_valid = v.peers_valid;
  peers_distinct = v.peers_distinct;
  actions_foreign = v.actions_foreign;
  deferred_foreign = All-append (IsForeign b.local_peer_id) b.deferred actions v.deferred_foreign h;
}

validation_failed-IsValid :
    (t : Texts) (info : PeerInfo) (addr : Multiaddr) (error : DialError) (now : ℕ)
    → InfoIsValid info
    → InfoIsValid (validation_failed t info addr error now)
unfolding validation_failed
validation_failed-IsValid t info addr error now i =
    let i' = push_failure-IsValid info addr _ _ i in
    either (is_wrong_peer error) (remove_address-IsValid _ addr i') i'
  where
    either :
        (c : Bool) {x y : PeerInfo}
        → InfoIsValid x
        → InfoIsValid y
        → InfoIsValid (if c then x else y)
    either true h k = h
    either false h k = k

validation_failure-IsValid :
    (t : Texts) (b : AddressBook) (peer : PeerId) (info : PeerInfo) (addr : Multiaddr) (retries : ℕ)
    (keep_alive : Bool) (error : DialError) (now : ℕ)
    → peer ≢ b.local_peer_id
    → InfoIsValid info
    → IsValid b
    → IsValid (validation_failure t b peer info addr retries keep_alive error now)
unfolding validation_failure
validation_failure-IsValid t b peer info addr retries keep_alive error now n i v =
    let v' = put_info-IsValid b peer _ n (validation_failed-IsValid t info addr error now i) v in
    elim (Bool-cases (any_sim_open error && ltb 0 retries)) [
      | inl e ↦ rw e (notify-IsValid _ _ (notify-IsValid _ _ (defer-IsValid _ _ (n, tt) v')))
      | inr e ↦ rw e (notify-IsValid _ _ (notify-IsValid _ _ v'))
    ]

note_errors-IsValid :
    (ids : PeerIds) (t : Texts) (own peer : PeerId) (keep_alive : Bool) (now : ℕ) (info : PeerInfo)
    (v : List (Multiaddr × TransportError))
    → peer ≢ own
    → InfoIsValid info
    → InfoIsValid (note_errors ids t peer keep_alive now info v).0
      × All (IsForeign own) (note_errors ids t peer keep_alive now info v).2
unfolding note_errors
note_errors-IsValid ids t own peer keep_alive now info [] n i = (i, tt)
note_errors-IsValid ids t own peer keep_alive now info ((addr, error) ∷ rest) n i =
    let f = transport_failure_of t (without_peer_id addr) error now in
    let a = normalize_addr ids addr peer in
    let r =
      note_errors-IsValid ids t own peer keep_alive now (push_failure info a f true) rest n
        (push_failure-IsValid info a f true i) in
    elim (Bool-cases (is_sim_open error)) [ inl e ↦ rw e (r.0, (n, r.1)) | inr e ↦ rw e (r.0, r.1) ]

notify_all-IsValid : (b : AddressBook) (es : List Event) → IsValid b → IsValid (notify_all b es)
unfolding notify_all
notify_all-IsValid b [] v = v
notify_all-IsValid b (e ∷ es) v = notify_all-IsValid (notify b e) es (notify-IsValid b e v)

notify_all-local :
    (b : AddressBook) (es : List Event) → (notify_all b es).local_peer_id ≡ b.local_peer_id
unfolding notify_all notify
notify_all-local b [] = refl
notify_all-local b (e ∷ es) = notify_all-local (unfold notify in notify b e) es

swarm_dial_failure-IsValid :
    (ids : PeerIds) (t : Texts) (b : AddressBook) (peer : PeerId) (info : PeerInfo)
    (errors : List (Multiaddr × TransportError)) (now : ℕ)
    → peer ≢ b.local_peer_id
    → InfoIsValid info
    → IsValid b
    → IsValid (swarm_dial_failure ids t b peer info errors now)
unfolding swarm_dial_failure notify
swarm_dial_failure-IsValid ids t b peer info errors now n i v =
    let r = note_errors ids t peer b.keep_alive now info errors in
    let h = note_errors-IsValid ids t b.local_peer_id peer b.keep_alive now info errors n i in
    let b' = notify_all (put_info b peer r.0) r.1 in
    let v' = notify_all-IsValid (put_info b peer r.0) r.1 (put_info-IsValid b peer r.0 n h.0 v) in
    let foreign : All (IsForeign b'.local_peer_id) r.2 =
      rw (notify_all-local (put_info b peer r.0) r.1) h.1 in
    elim (Bool-cases (is_empty r.2)) [
      | inl e ↦ rw e (
          notify-IsValid _ (new_info peer) (
            defer-IsValid (notify b' (unreachable peer)) r.2 foreign
              (notify-IsValid b' (unreachable peer) v')))
      | inr e ↦ rw e (notify-IsValid _ (new_info peer) (defer-IsValid b' r.2 foreign v'))
    ]

known_peer_failure-IsValid :
    (ids : PeerIds) (t : Texts) (b : AddressBook) (peer : PeerId)
    (own_dial : Option (Multiaddr × ℕ)) (keep_alive : Bool) (error : DialError) (now : ℕ)
    (info : PeerInfo)
    → peer ≢ b.local_peer_id
    → InfoIsValid info
    → IsValid b
    → IsValid (known_peer_failure ids t b peer own_dial keep_alive error now info)
known_peer_failure-IsValid ids t b peer (some (addr, retries)) keep_alive error now info n i v =
    validation_failure-IsValid t b peer info addr retries keep_alive error now n i v
known_peer_failure-IsValid ids t b peer none keep_alive (transport errors) now info n i v =
    swarm_dial_failure-IsValid ids t b peer info errors now n i v
known_peer_failure-IsValid ids t b peer none keep_alive dial_peer_condition_false now info n i v = v
known_peer_failure-IsValid ids t b peer none keep_alive banned now info n i v = v
known_peer_failure-IsValid ids t b peer none keep_alive local_peer_id now info n i v = v
known_peer_failure-IsValid ids t b peer none keep_alive (connection_io e) now info n i v =
    notify-IsValid b (unreachable peer) v
known_peer_failure-IsValid ids t b peer none keep_alive (wrong_peer_id o) now info n i v =
    notify-IsValid b (unreachable peer) v
known_peer_failure-IsValid ids t b peer none keep_alive (other_dial e) now info n i v =
    notify-IsValid b (unreachable peer) v

pub dial_failure-IsValid :
    (ids : PeerIds) (t : Texts) (b : AddressBook) (handler : IntoAddressHandler)
    (peer_id : Option PeerId) (error : DialError) (now : ℕ)
    → IsValid b
    → IsValid (dial_failure ids t b handler peer_id error now)
unfolding dial_failure
dial_failure-IsValid ids t b handler peer_id error now v =
    go (or_else (handler_peer_id ids handler.own_dial) peer_id)
  where
    go : (o : Option PeerId) → IsValid (peer_failure ids t b handler error now o)
    go none = v
    go (some peer) = elim (Option-cases (get_info peer b.peers)) [
      | inl e ↦ rw e v
      | inr (info, e) ↦
          let (n, i) = get_info-IsValid b peer info e v in
          rw e (
            known_peer_failure-IsValid ids t b peer handler.own_dial handler.keep_alive error now
              info n i v)
    ]
