-- ===== src/AddressBook/Laws/Redials.antt =====
-- src/net/peers.rs: what a failed dial does to the book, and that redials end.
use ipfs_embed.Prelude.{All-member}
use ipfs_embed.Prelude.{
  ◌∙◌, ℕ, ◌-◌, ◌≤◌, ◌<◌, ◌≡◌, ◌||◌, ◌&&◌, refl, sym, Bool, true, List, [], ◌∷◌, ◌++◌, Option, none,
  some, arith, All, lookup, length, ltb, Bool-cases, Option-cases, inl, inr, if◌then◌else◌, or_else,
  holds, lookup-remove, subst,
}
use mathlib.Core.List.{append-nil, Memᴰ}
use ipfs_embed.Multiaddr.{
  Multiaddr, Multiaddr-discrete, PeerId, PeerIds, normalize_addr, without_peer_id,
}
use ipfs_embed.PeerInfo.{PeerInfo, push_failure, probed}
use ipfs_embed.PeerInfo.Laws.{push_failure-addresses}
use ipfs_embed.PeerInfo.Failure.{
  DialError, TransportError, Texts, is_sim_open, transport, connection_io, wrong_peer_id,
  dial_peer_condition_false, banned, local_peer_id, other_dial, dial_failure_of,
  transport_failure_of,
}
use ipfs_embed.AddressBook.State.{
  AddressBook, Action, Event, IntoAddressHandler, handler_peer_id, get_info, put_info, notify,
  unreachable,
}
use ipfs_embed.AddressBook.Failures.{
  validation_failed, validation_failure, note_errors, notify_all, swarm_dial_failure,
  known_peer_failure, peer_failure, dial_failure, is_wrong_peer, any_sim_open, probe_result_of,
  redial,
}

-- The failure of a validation dial takes away at most the address dialled: always if another peer
-- answered there, and otherwise if the dial is an answer to a probe and the address is still to be
-- probed. An address that was dialled with success or given by the user survives all else.
pub validation_failed-addresses :
    (t : Texts) (info : PeerInfo) (addr a : Multiaddr) (error : DialError) (now : ℕ)
    → lookup Multiaddr-discrete a (validation_failed t info addr error now).addresses ≡ (
        if holds (Multiaddr-discrete addr a)
          && (is_wrong_peer error
              || probe_result_of error && probed (lookup Multiaddr-discrete addr info.addresses))
        then none
        else lookup Multiaddr-discrete a info.addresses)
unfolding validation_failed
validation_failed-addresses t info addr a error now =
    let f = dial_failure_of t (without_peer_id addr) error now in
    let info' = push_failure info addr f (probe_result_of error) in
    ground (
      arith,
      push_failure-addresses info addr a f (probe_result_of error),
      lookup-remove Multiaddr-discrete addr a info'.addresses,
    )

-- How many redials a dial can still lead to: 11 for one that the swarm made by itself.
abbrev pub budget_of : Option (Multiaddr × ℕ) → ℕ
budget_of none = 11
budget_of (some (addr, retries)) = retries

abbrev pub Smaller : ℕ → List Action → Type 0
Smaller n = All (λ a. budget_of a.handler.own_dial < n)

-- The actions that an operation put off, all of them with a budget below the one given.
abbrev Defers : ℕ → AddressBook → AddressBook → Type 0
Defers n b b' = (xs : List Action) × (b'.deferred ≡ b.deferred ++ xs) × Smaller n xs

none_deferred : (n : ℕ) (b b' : AddressBook) → b'.deferred ≡ b.deferred → Defers n b b'
none_deferred n b b' e = ([], ground (arith, append-nil b.deferred), tt)

note_errors-Smaller :
    (ids : PeerIds) (t : Texts) (peer : PeerId) (keep_alive : Bool) (now : ℕ) (info : PeerInfo)
    (v : List (Multiaddr × TransportError))
    → Smaller 11 (note_errors ids t peer keep_alive now info v).2
unfolding note_errors
note_errors-Smaller ids t peer keep_alive now info [] = tt
note_errors-Smaller ids t peer keep_alive now info ((addr, error) ∷ rest) =
    let f = transport_failure_of t (without_peer_id addr) error now in
    let r =
      note_errors-Smaller ids t peer keep_alive now
        (push_failure info (normalize_addr ids addr peer) f true) rest in
    elim (Bool-cases (is_sim_open error)) [ inl e ↦ rw e (omega arith, r) | inr e ↦ rw e r ]

notify_all-deferred : (b : AddressBook) (es : List Event) → (notify_all b es).deferred ≡ b.deferred
unfolding notify_all notify
notify_all-deferred b [] = refl
notify_all-deferred b (e ∷ es) = notify_all-deferred (unfold notify in notify b e) es

swarm_dial_failure-Defers :
    (ids : PeerIds) (t : Texts) (b : AddressBook) (peer : PeerId) (info : PeerInfo)
    (v : List (Multiaddr × TransportError)) (now : ℕ)
    → Defers 11 b (swarm_dial_failure ids t b peer info v now)
unfolding swarm_dial_failure notify
swarm_dial_failure-Defers ids t b peer info v now =
    let r = note_errors ids t peer b.keep_alive now info v in
    (
      r.2,
      ground (arith, notify_all-deferred (put_info b peer r.0) r.1),
      note_errors-Smaller ids t peer b.keep_alive now info v,
    )

validation_failure-Defers :
    (t : Texts) (b : AddressBook) (peer : PeerId) (info : PeerInfo) (addr : Multiaddr) (retries : ℕ)
    (keep_alive : Bool) (error : DialError) (now : ℕ)
    → Defers retries b (validation_failure t b peer info addr retries keep_alive error now)
unfolding validation_failure notify
validation_failure-Defers t b peer info addr retries keep_alive error now =
    elim (Bool-cases (any_sim_open error && ltb 0 retries)) [
      | inl e ↦ (redial peer addr (retries - 1) keep_alive ∷ [], rw e, (ground arith, tt))
      | inr e ↦ ([], ground (arith, append-nil b.deferred), tt)
    ]

known_peer_failure-Defers :
    (ids : PeerIds) (t : Texts) (b : AddressBook) (peer : PeerId)
    (own_dial : Option (Multiaddr × ℕ)) (keep_alive : Bool) (error : DialError) (now : ℕ)
    (info : PeerInfo)
    → Defers
        (budget_of own_dial)
        b
        (known_peer_failure ids t b peer own_dial keep_alive error now info)
unfolding notify
known_peer_failure-Defers ids t b peer (some (addr, retries)) keep_alive error now info =
    validation_failure-Defers t b peer info addr retries keep_alive error now
known_peer_failure-Defers ids t b peer none keep_alive (transport errors) now info =
    swarm_dial_failure-Defers ids t b peer info errors now
known_peer_failure-Defers ids t b peer none keep_alive dial_peer_condition_false now info =
    none_deferred 11 b b refl
known_peer_failure-Defers ids t b peer none keep_alive banned now info = none_deferred 11 b b refl
known_peer_failure-Defers ids t b peer none keep_alive local_peer_id now info =
    none_deferred 11 b b refl
known_peer_failure-Defers ids t b peer none keep_alive (connection_io e) now info =
    none_deferred 11 b (notify b (unreachable peer)) refl
known_peer_failure-Defers ids t b peer none keep_alive (wrong_peer_id o) now info =
    none_deferred 11 b (notify b (unreachable peer)) refl
known_peer_failure-Defers ids t b peer none keep_alive (other_dial e) now info =
    none_deferred 11 b (notify b (unreachable peer)) refl

-- A failed dial only adds to the redials that are put off, and each one that it adds has fewer
-- retries left than the dial that failed.
dial_failure-Defers :
    (ids : PeerIds) (t : Texts) (b : AddressBook) (handler : IntoAddressHandler)
    (peer_id : Option PeerId) (error : DialError) (now : ℕ)
    → Defers (budget_of handler.own_dial) b (dial_failure ids t b handler peer_id error now)
unfolding dial_failure
dial_failure-Defers ids t b handler peer_id error now =
    go (or_else (handler_peer_id ids handler.own_dial) peer_id)
  where
    n : ℕ
    n = budget_of handler.own_dial

    go : (o : Option PeerId) → Defers n b (peer_failure ids t b handler error now o)
    go none = none_deferred n b b refl
    go (some peer) = elim (Option-cases (get_info peer b.peers)) [
      | inl e ↦ ([], ground (arith, append-nil b.deferred), tt)
      | inr (info, e) ↦ rw e (
          known_peer_failure-Defers ids t b peer handler.own_dial handler.keep_alive error now info)
    ]

append_cancel {ℓ} : {A : Type ℓ} (l xs ys : List A) → l ++ xs ≡ l ++ ys → xs ≡ ys
append_cancel [] xs ys e = e
append_cancel (a ∷ l) xs ys e = append_cancel l xs ys (cc)

-- `h'` is the handler of a redial that the failure of a dial with the handler `h` puts off.
pub data Redials (ids : PeerIds) (t : Texts) (h h' : IntoAddressHandler) : Type 0 where
  failed :
      (b : AddressBook) (peer_id : Option PeerId) (error : DialError) (now : ℕ) (xs : List Action)
      (a : Action)
      → (dial_failure ids t b h peer_id error now).deferred ≡ b.deferred ++ xs
      → Memᴰ a xs
      → a.handler ≡ h'
      → Redials ids t h h'

-- Each handler is that of a redial after a failure of the one before.
abbrev pub Chain : PeerIds → Texts → IntoAddressHandler → List IntoAddressHandler → Type 0
Chain ids t h [] = Unit
Chain ids t h (h' ∷ hs) = Redials ids t h h' × Chain ids t h' hs

Redials-lt :
    (ids : PeerIds) (t : Texts) (h h' : IntoAddressHandler)
    → Redials ids t h h'
    → budget_of h'.own_dial < budget_of h.own_dial
Redials-lt ids t h h' (failed b peer_id error now xs a e m same) =
    let (ys, e', small) = dial_failure-Defers ids t b h peer_id error now in
    let q : ys ≡ xs = append_cancel b.deferred ys xs (sym e' ∙ e) in
    ground (
      arith,
      All-member (λ x. budget_of x.handler.own_dial < budget_of h.own_dial) xs
          (subst (Smaller (budget_of h.own_dial)) q small) m,
    )

-- Redials end: a sequence of redials, each put off by the failure of the one before, is at most
-- eleven long after a dial of the swarm or of the user, and at most `n` long after a dial with `n`
-- retries left, whatever state the book is in each time. One failure may put off several redials,
-- each of which starts such a sequence.
pub Chain-length :
    (ids : PeerIds) (t : Texts) (h : IntoAddressHandler) (hs : List IntoAddressHandler)
    → Chain ids t h hs
    → length hs ≤ budget_of h.own_dial
Chain-length ids t h [] c = omega arith
Chain-length ids t h (h' ∷ hs) c =
    omega (arith, Redials-lt ids t h h' c.0, Chain-length ids t h' hs c.1)
