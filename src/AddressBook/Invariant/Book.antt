-- ===== src/AddressBook/Invariant/Book.antt =====
-- src/net/peers.rs: the invariant of the whole book, and the steps that the operations share.
use ipfs_embed.Prelude.{
  Distinct, Distinct-insert, Distinct-remove, ◌≢◌, ◌≡◌, [], ◌∷◌, some, All, All-insert, All-lookup,
  All-append, ℕ_discrete, Option-cases, inl, inr, All-remove, remove,
}
use ipfs_embed.Multiaddr.{PeerId}
use ipfs_embed.PeerInfo.{PeerInfo}
use ipfs_embed.AddressBook.State.{
  AddressBook, Action, Event, get_info, or_default, put_info, push_action, notify,
}
use ipfs_embed.AddressBook.Invariant.Info.{InfoIsValid, empty_info-IsValid}

abbrev pub PeerIsValid : PeerId → PeerId × PeerInfo → Type 0
PeerIsValid own e = (e.0 ≢ own) × InfoIsValid e.1

-- The node does not dial itself.
abbrev pub IsForeign : PeerId → Action → Type 0
IsForeign own a = a.opts.peer ≢ own

-- The node is not in its own book, a peer has one record, no dial that the book asks for or has put off goes to the node
-- itself, and each record is in order.
pub record IsValid (b : AddressBook) : Type 0 where
  pub peers_valid : All (PeerIsValid b.local_peer_id) b.peers
  pub peers_distinct : Distinct ℕ_discrete b.peers
  pub actions_foreign : All (IsForeign b.local_peer_id) b.actions
  pub deferred_foreign : All (IsForeign b.local_peer_id) b.deferred

pub notify-IsValid : (b : AddressBook) (e : Event) → IsValid b → IsValid (notify b e)
unfolding notify
notify-IsValid b e v = record {
  peers_valid = v.peers_valid;
  peers_distinct = v.peers_distinct;
  actions_foreign = v.actions_foreign;
  deferred_foreign = v.deferred_foreign;
}

pub put_info-IsValid :
    (b : AddressBook) (peer : PeerId) (info : PeerInfo)
    → peer ≢ b.local_peer_id
    → InfoIsValid info
    → IsValid b
    → IsValid (put_info b peer info)
put_info-IsValid b peer info n i v = record {
  peers_valid =
      All-insert ℕ_discrete (PeerIsValid b.local_peer_id) peer info b.peers (n, i) v.peers_valid;
  peers_distinct = Distinct-insert ℕ_discrete peer info b.peers v.peers_distinct;
  actions_foreign = v.actions_foreign;
  deferred_foreign = v.deferred_foreign;
}

pub forget-IsValid :
    (b : AddressBook) (peer : PeerId)
    → IsValid b
    → IsValid (record b { peers = remove ℕ_discrete peer b.peers })
forget-IsValid b peer v = record {
  peers_valid = All-remove ℕ_discrete (PeerIsValid b.local_peer_id) peer b.peers v.peers_valid;
  peers_distinct = Distinct-remove ℕ_discrete peer b.peers v.peers_distinct;
  actions_foreign = v.actions_foreign;
  deferred_foreign = v.deferred_foreign;
}

pub push_action-IsValid :
    (b : AddressBook) (action : Action)
    → action.opts.peer ≢ b.local_peer_id
    → IsValid b
    → IsValid (push_action b action)
push_action-IsValid b action n v = record {
  peers_valid = v.peers_valid;
  peers_distinct = v.peers_distinct;
  actions_foreign =
      All-append (IsForeign b.local_peer_id) b.actions (action ∷ []) v.actions_foreign (n, tt);
  deferred_foreign = v.deferred_foreign;
}

pub get_info-IsValid :
    (b : AddressBook) (peer : PeerId) (info : PeerInfo)
    → get_info peer b.peers ≡ some info
    → IsValid b
    → (peer ≢ b.local_peer_id) × InfoIsValid info
get_info-IsValid b peer info e v =
    All-lookup ℕ_discrete (PeerIsValid b.local_peer_id) peer info b.peers v.peers_valid e

pub or_default-IsValid :
    (b : AddressBook) (peer : PeerId) → IsValid b → InfoIsValid (or_default peer b.peers)
or_default-IsValid b peer v = elim (Option-cases (get_info peer b.peers)) [
  | inl e ↦ rw e empty_info-IsValid
  | inr (info, e) ↦ rw e ((get_info-IsValid b peer info e v).1)
]
