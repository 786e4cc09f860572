-- ===== src/Examples/BookAt.antt =====
-- The theorems on the address book, at the values of Examples/Constants.
use ipfs_embed.AddressBook.State.{get_info}
use ipfs_embed.AddressBook.Invariant.Steps.{add_address as add_call}
use ipfs_embed.AddressBook.Laws.Frame.{run, run-get_info}
use ipfs_embed.AddressBook.State.{AddressBook}
use ipfs_embed.AddressBook.Dial.{dial_address}
use ipfs_embed.AddressBook.Swarm.{poll}
use ipfs_embed.AddressBook.Invariant.Steps.{poll as poll_call, dial_address as dial_call}
use ipfs_embed.AddressBook.Invariant.Flights.{
  call, start as begin, taken, handed, Outstanding, Flight-Outstanding,
}
use ipfs_embed.Prelude.{inl}
use ipfs_embed.Multiaddr.{peer_id}
use ipfs_embed.Prelude.{
  ℕ, suc, ◌≢◌, ◌≡◌, ◌≤◌, ◌↔◌, ◌==◌, ◌||◌, ◌&&◌, not, true, false, [], ◌∷◌, ◌++◌, none, some, lookup,
  ℕ_discrete, refl, if◌then◌else◌, ltb, length,
}
use mathlib.Core.List.{Memᴰ}
use ipfs_embed.Multiaddr.{Multiaddr-discrete, normalize_addr, without_peer_id, is_loopback}
use ipfs_embed.PeerInfo.Source.{candidate, rank, is_to_probe}
use ipfs_embed.PeerInfo.Laws.{known}
use ipfs_embed.PeerInfo.Failure.{transport}
use ipfs_embed.AddressBook.State.{or_default, contains, connected_at, new}
use ipfs_embed.AddressBook.Addresses.{add_address}
use ipfs_embed.AddressBook.Prune.{prune_peers}
use ipfs_embed.AddressBook.Failures.{dial_failure, redial, validation_failure, validation_failed}
use ipfs_embed.Channel.{broadcast}
use ipfs_embed.PeerInfo.{push_failure}
use ipfs_embed.PeerInfo.Failure.{is_sim_open}
use ipfs_embed.AddressBook.State.{notify}
use ipfs_embed.Prelude.{any}
use ipfs_embed.AddressBook.Swarm
use ipfs_embed.AddressBook.Invariant.Book.{IsValid}
use ipfs_embed.AddressBook.Invariant.Steps.{
  step, start, next, Reach-IsValid, on_swarm_event, set_rtt, prune_peers as prune_call,
}
use ipfs_embed.AddressBook.Invariant.Listeners.{IsCounted, Reach-IsCounted}
use ipfs_embed.AddressBook.Laws.Pruning.{IsStale, prune_peers_lem}
use ipfs_embed.AddressBook.Laws.Probing.{add_address-actions, probe}
use ipfs_embed.AddressBook.Laws.Redials.{budget_of, Chain-length, Redials, failed}
use ipfs_embed.Examples.Constants.{
  ids, texts, home_addr, full_addr, endpoint, peer_info, book, sim_open, own_dial,
}

two_not_one : ◌≢◌ {A = ℕ} 2 1
two_not_one e = cc

-- The swarm connects to peer 2, its ping is measured, and the peers are pruned.
Reach-IsValid_example : IsValid (
    step ids texts
      (step ids texts
        (step ids texts
          (new 1 false true false)
          (7, on_swarm_event (Swarm.connection_established 2 endpoint 0)))
        (8, set_rtt 2 (some 50)))
      (9, prune_call 100))
Reach-IsValid_example = Reach-IsValid ids texts (
    next (9, prune_call 100)
      (next (8, set_rtt 2 (some 50))
        (next (7, on_swarm_event (Swarm.connection_established 2 endpoint 0))
          (start false true false) two_not_one)
        tt)
      tt)

-- The swarm listens at two addresses, and the first of them expires.
Reach-IsCounted_example : IsCounted (
    step ids texts
      (step ids texts
        (step ids texts
          (new 1 false true false)
          (7, on_swarm_event (Swarm.new_listen_addr 0 home_addr)))
        (8, on_swarm_event (Swarm.new_listen_addr 0 full_addr)))
      (9, on_swarm_event (Swarm.expired_listen_addr 0 home_addr)))
Reach-IsCounted_example = Reach-IsCounted ids texts (
    next (9, on_swarm_event (Swarm.expired_listen_addr 0 home_addr))
      (next (8, on_swarm_event (Swarm.new_listen_addr 0 full_addr))
        (next (7, on_swarm_event (Swarm.new_listen_addr 0 home_addr)) (start false true false) tt)
        tt)
      tt)

-- At a hundred seconds, peer 2 is stale, so no record of it is left.
prune_peers_lem_example :
    (lookup ℕ_discrete 2 (prune_peers book 10 100000000000).peers ≡ some peer_info)
    ↔ (lookup ℕ_discrete 2 book.peers ≡ some peer_info) × ¬ IsStale 10 100000000000 peer_info
unfolding lookup
prune_peers_lem_example = prune_peers_lem book 10 100000000000 2 peer_info (refl, tt)

-- A candidate address of a peer that is not known yet.
add_address-actions_example :
    let full = normalize_addr ids home_addr 3 in
    let info = or_default 3 book.peers in
    (add_address ids book 3 home_addr candidate 8).actions
    ≡ book.actions
      ++ (if not (3 == book.local_peer_id)
            && (book.enable_loopback || not (is_loopback home_addr))
            && not (contains (without_peer_id home_addr) book.listeners)
            && (ltb (known (lookup Multiaddr-discrete full info.addresses)) (suc (rank candidate))
                && is_to_probe candidate)
            && not (connected_at info full)
          then probe ids 3 home_addr ∷ []
          else [])
add_address-actions_example = add_address-actions ids book 3 home_addr candidate 8

one_redial : Redials ids texts own_dial (redial 2 full_addr 10 false).handler
unfolding dial_failure validation_failure validation_failed push_failure lookup is_sim_open any
    notify broadcast peer_id ℕ_discrete
one_redial =
    failed book none (transport ((full_addr, sim_open) ∷ [])) 9 (redial 2 full_addr 10 false ∷ [])
      (redial 2 full_addr 10 false) refl (Memᴰ.head refl) refl

Chain-length_example :
    length ((redial 2 full_addr 10 false).handler ∷ []) ≤ budget_of own_dial.own_dial
Chain-length_example =
    Chain-length ids texts own_dial ((redial 2 full_addr 10 false).handler ∷ []) (one_redial, tt)

-- The user has peer 2 dialled, the swarm takes the dial, and the dial fails.
abbrev dialled : AddressBook
dialled = step ids texts (new 1 false true false) (7, dial_call 2 home_addr)

Flight-Outstanding_example :
    Outstanding false
      (step ids texts (step ids texts dialled (8, poll_call [] none)) (
        9,
        on_swarm_event (Swarm.dial_failure own_dial none (transport ((full_addr, sim_open) ∷ []))),
      ))
      (own_dial ∷ [])
unfolding step dial_address poll taken handed lookup peer_id ℕ_discrete normalize_addr
Flight-Outstanding_example = Flight-Outstanding ids texts {keep = false} (
    call 9
      (on_swarm_event (Swarm.dial_failure own_dial none (transport ((full_addr, sim_open) ∷ []))))
      (call 8 (poll_call [] none) (call 7 (dial_call 2 home_addr) (begin 1 false true) tt) tt)
      (inl (Memᴰ.head refl)))

three_not_two : ◌≢◌ {A = ℕ} 3 2
three_not_two e = cc

four_not_two : ◌≢◌ {A = ℕ} 4 2
four_not_two e = cc

-- Peer 3 gets an address, a dial of peer 4 is asked for, and the swarm takes the first dial.
run-get_info_example :
    get_info 2
      (run ids texts book (
        (7, add_call 3 home_addr candidate)
        ∷ (8, dial_call 4 home_addr)
        ∷ (9, poll_call [] none)
        ∷ [])).peers
    ≡ get_info 2 book.peers
run-get_info_example =
    run-get_info ids texts book
      ((7, add_call 3 home_addr candidate)
        ∷ (8, dial_call 4 home_addr)
        ∷ (9, poll_call [] none)
        ∷ [])
      2 (three_not_two, (four_not_two, ((λ e. e), tt)))
