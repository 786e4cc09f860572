-- ===== src/Network/Service/Streams.antt =====
-- src/net/mod.rs: the stream of a listener's events, and the future of a sync.
use ipfs_embed.Prelude.{
  ℕ, zero, suc, ◌≡◌, ◌==◌, refl, Bool, true, false, List, [], ◌∷◌, ◌++◌, ◌<◌, Option-cases, Option,
  none, some, arith, length, if◌then◌else◌, Bool-cases, inl, inr,
}
use mathlib.Core.List.{append-nil, append_assoc}
use ipfs_embed.Multiaddr.{Multiaddr, PeerId}
use ipfs_embed.Channel.{Channel, send}
use ipfs_embed.AddressBook.State.{
  Event, ListenerId, listener_closed, new_listen_addr, expired_listen_addr,
}
use ipfs_embed.Network.State.{Cid}

pub data ListenerEvent : Type 0 where
  new_addr : Multiaddr → ListenerEvent
  expired_addr : Multiaddr → ListenerEvent
  failed : Multiaddr → ℕ → ListenerEvent

-- What an event says of the addresses of a listener.
abbrev pub of_listener : ListenerId → Event → Option ListenerEvent
of_listener l (new_listen_addr id addr) = if id == l then some (new_addr addr) else none
of_listener l (expired_listen_addr id addr) = if id == l then some (expired_addr addr) else none
of_listener l _ = none

abbrev pub closes : ListenerId → Event → Bool
closes l (listener_closed id) = id == l
closes l _ = false

abbrev pub respond : Option ListenerEvent → Channel ListenerEvent → Channel ListenerEvent
respond none c = c
respond (some e) c = send e c

-- whether `take_while` goes on after an event about the listener's addresses, or about others
abbrev pub goes_on : Option ListenerEvent → Channel ListenerEvent → Bool
goes_on none c = true
goes_on (some e) c = c.open_

-- the response channel after the events that came
unfoldable pub forward_listener_events :
    ListenerId → Channel ListenerEvent → List Event → Channel ListenerEvent
forward_listener_events l c [] = c
forward_listener_events l c (e ∷ rest) =
    let c' = respond (of_listener l e) c in
    let after = forward_listener_events l c' rest in
    if closes l e then c else if goes_on (of_listener l e) c then after else c'

-- The events up to the end of the listener.
abbrev pub until_closed : ListenerId → List Event → List Event
until_closed l [] = []
until_closed l (e ∷ rest) =
    let before = until_closed l rest in if closes l e then [] else e ∷ before

abbrev pub all_of_listener : ListenerId → List Event → List ListenerEvent
all_of_listener l [] = []
all_of_listener l (e ∷ rest) = elim (of_listener l e) [
  | none ↦ all_of_listener l rest
  | some x ↦ x ∷ all_of_listener l rest
]

-- If the receiver is there, it gets, after what it got before, the events of the listener's own
-- addresses up to the end of the listener, in their order, and nothing else.
pub forward_listener_events_lem :
    (l : ListenerId) (q : List ListenerEvent) (es : List Event)
    → (forward_listener_events l (record { open_ = true; queue = q }) es).queue
      ≡ q ++ all_of_listener l (until_closed l es)
unfolding forward_listener_events
forward_listener_events_lem l q [] = ground (arith, append-nil q)
forward_listener_events_lem l q (e ∷ rest) = elim (Bool-cases (closes l e)) [
  | inl c ↦ ground (arith, c, append-nil q)
  | inr c ↦ elim (Option-cases (of_listener l e)) [
    | inl o ↦ ground (arith, c, o, forward_listener_events_lem l q rest)
    | inr (x, o) ↦ ground (
      arith,
      c,
      o,
      forward_listener_events_lem l (q ++ x ∷ []) rest,
      append_assoc q (x ∷ []) (all_of_listener l (until_closed l rest)),
    )
  ]
]

-- `SyncEvent`; the result is an error or none
pub data SyncEvent : Type 0 where
  progress : ℕ → SyncEvent
  complete : Option ℕ → SyncEvent

pub data SyncPoll : Type 0 where
  sync_pending : SyncPoll
  sync_ready : Option ℕ → SyncPoll

-- `SyncQuery::poll` on what is in its channel, and whether the sender is still there. The loop runs
-- on fuel, and `none` is that the fuel ran out.
unfoldable pub poll_sync : ℕ → Bool → List SyncEvent → Option SyncPoll
poll_sync zero alive q = none
poll_sync (suc fuel) alive [] = if alive then some sync_pending else poll_sync fuel false []
poll_sync (suc fuel) alive (complete result ∷ q) = some (sync_ready result)
poll_sync (suc fuel) alive (progress missing ∷ q) = poll_sync fuel alive q

-- The first result in the channel.
abbrev pub result_of : List SyncEvent → Option (Option ℕ)
result_of [] = none
result_of (complete r ∷ q) = some r
result_of (progress n ∷ q) = result_of q

abbrev pub polled : Option (Option ℕ) → Bool → Option SyncPoll
polled (some r) alive = some (sync_ready r)
polled none true = some sync_pending
polled none false = none

never : (fuel : ℕ) → poll_sync fuel false [] ≡ none
unfolding poll_sync
never zero = refl
never (suc fuel) = never fuel

-- With more rounds than there are events in the channel, a sync's poll gives the first result that
-- is in the channel; if there is none it is pending while the sender is there, and goes on for as
-- many rounds as there are if the sender is gone.
pub poll_sync_lem :
    (fuel : ℕ) (alive : Bool) (q : List SyncEvent)
    → length q < fuel
    → poll_sync fuel alive q ≡ polled (result_of q) alive
unfolding poll_sync
poll_sync_lem zero alive q h = absurd (omega arith)
poll_sync_lem (suc fuel) true [] h = refl
poll_sync_lem (suc fuel) false [] h = never fuel
poll_sync_lem (suc fuel) alive (complete r ∷ q) h = refl
poll_sync_lem (suc fuel) alive (progress n ∷ q) h = poll_sync_lem fuel alive q (omega arith)

-- `NetworkService::sync`: nothing is missing, nobody has it, or the query goes to the swarm
pub data SyncStart : Type 0 where
  ready_query : Option Cid → SyncStart
  sync_command : SyncStart

unfoldable pub start_sync : List PeerId → List Cid → SyncStart
start_sync providers [] = ready_query none
start_sync [] (cid ∷ missing) = ready_query (some cid)
start_sync (p ∷ providers) (cid ∷ missing) = sync_command
