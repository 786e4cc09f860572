-- ===== src/AddressBook/Laws/Pruning.antt =====
-- src/net/peers.rs: which peers `prune_peers` forgets.
use ipfs_embed.Prelude.{
  ℕ, ◌-◌, ◌≤◌, ◌≡◌, ◌↔◌, ◌==◌, refl, ◌||◌, not, Bool, true, false, List, [], ◌∷◌, none, some, arith,
  All, lookup, remove, lookup-remove, Distinct, any, retain, max, ℕ_discrete, Bool-cases,
  Option-cases, inl, inr, first?, if◌then◌else◌,
}
use ipfs_embed.Multiaddr.{Multiaddr, PeerId}
use ipfs_embed.PeerInfo.{PeerInfo}
use ipfs_embed.PeerInfo.Source.{AddressSource, is_confirmed, is_to_probe}
use ipfs_embed.PeerInfo.Failure.{ConnectionFailure}
use ipfs_embed.AddressBook.State.{AddressBook, notify, new_info}
use ipfs_embed.AddressBook.Prune.{
  keeps, keeps_address, ten_seconds, to_remove, remove_peers, prune_peers,
}

-- Whether a peer stands in a list.
abbrev pub listed : PeerId → List PeerId → Bool
listed p [] = false
listed p (q ∷ qs) = q == p || listed p qs

lookup-remove_peers :
    (b : AddressBook) (p : PeerId) (ps : List PeerId)
    → lookup ℕ_discrete p (remove_peers b ps).peers
      ≡ (if listed p ps then none else lookup ℕ_discrete p b.peers)
unfolding remove_peers notify
lookup-remove_peers b p [] = refl
lookup-remove_peers b p (q ∷ qs) = ground (
  arith,
  lookup-remove_peers
      (unfold notify in notify (record b { peers = remove ℕ_discrete q b.peers }) (new_info q)) p
      qs,
  lookup-remove ℕ_discrete q p b.peers,
)

not_listed :
    (min_age now : ℕ) (p : PeerId) (peers : List (PeerId × PeerInfo))
    → lookup ℕ_discrete p peers ≡ none
    → listed p (to_remove min_age now peers) ≡ false
unfolding lookup to_remove retain
not_listed min_age now p [] h = refl
not_listed min_age now p ((q, info) ∷ peers) h = ground (arith, not_listed min_age now p peers)

listed-to_remove :
    (min_age now : ℕ) (p : PeerId) (info : PeerInfo) (peers : List (PeerId × PeerInfo))
    → Distinct ℕ_discrete peers
    → lookup ℕ_discrete p peers ≡ some info
    → listed p (to_remove min_age now peers) ≡ not (keeps min_age now info)
unfolding lookup to_remove retain
listed-to_remove min_age now p info [] d h = cc
listed-to_remove min_age now p info ((q, other) ∷ peers) d h =
    ground
      (arith, listed-to_remove min_age now p info peers d.1, not_listed min_age now p peers, d.0)

-- What makes a peer one to forget: it has no connection, its latest failure is old, and none of its
-- addresses is confirmed or may still be answered by a probe.
pub record IsStale (min_age now : ℕ) (info : PeerInfo) : Type 0 where
  pub unconnected : info.connections ≡ []
  pub settled : (f : ConnectionFailure) → first? info.failures ≡ some f → min_age ≤ now - f.time
  pub unanswered :
      All
        (λ (e : Multiaddr × (AddressSource × ℕ)).
          (is_confirmed e.1.0 ≡ false)
          × (is_to_probe e.1.0 ≡ true → max min_age ten_seconds ≤ now - e.1.1))
        info.addresses

none_keeps :
    (min_age now : ℕ) (addrs : List (Multiaddr × (AddressSource × ℕ)))
    → any (keeps_address min_age now) addrs ≡ false
    → All
        (λ (e : Multiaddr × (AddressSource × ℕ)).
          (is_confirmed e.1.0 ≡ false)
          × (is_to_probe e.1.0 ≡ true → max min_age ten_seconds ≤ now - e.1.1))
        addrs
unfolding any
none_keeps min_age now [] h = tt
none_keeps min_age now ((a, (s, dt)) ∷ rest) h =
    ((ground arith, λ p. ground arith), none_keeps min_age now rest (ground arith))

keeps_none :
    (min_age now : ℕ) (addrs : List (Multiaddr × (AddressSource × ℕ)))
    → All
        (λ (e : Multiaddr × (AddressSource × ℕ)).
          (is_confirmed e.1.0 ≡ false)
          × (is_to_probe e.1.0 ≡ true → max min_age ten_seconds ≤ now - e.1.1))
        addrs
    → any (keeps_address min_age now) addrs ≡ false
unfolding any
keeps_none min_age now [] h = refl
keeps_none min_age now ((a, (s, dt)) ∷ rest) h =
    ground (arith, h.0, keeps_none min_age now rest h.1)

keeps-IsStale :
    (min_age now : ℕ) (info : PeerInfo) → keeps min_age now info ≡ false → IsStale min_age now info
unfolding keeps
keeps-IsStale min_age now info h = record {
  unconnected = ground arith;
  settled = λ f e. ground arith;
  unanswered = none_keeps min_age now info.addresses (ground arith);
}

IsStale-keeps :
    (min_age now : ℕ) (info : PeerInfo) → IsStale min_age now info → keeps min_age now info ≡ false
unfolding keeps
IsStale-keeps min_age now info s = elim (Option-cases (first? info.failures)) [
  | inl e ↦ ground (arith, s.unconnected, keeps_none min_age now info.addresses s.unanswered)
  | inr (f, e) ↦
      ground
        (arith, s.unconnected, s.settled f e, keeps_none min_age now info.addresses s.unanswered)
]

pruned :
    (b : AddressBook) (min_age now : ℕ) (p : PeerId) (info : PeerInfo)
    → Distinct ℕ_discrete b.peers
    → lookup ℕ_discrete p b.peers ≡ some info
    → lookup ℕ_discrete p (prune_peers b min_age now).peers
      ≡ (if keeps min_age now info then some info else none)
unfolding prune_peers
pruned b min_age now p info d e = ground (
  arith,
  lookup-remove_peers b p (to_remove min_age now b.peers),
  listed-to_remove min_age now p info b.peers d e,
)

pruned_absent :
    (b : AddressBook) (min_age now : ℕ) (p : PeerId)
    → lookup ℕ_discrete p b.peers ≡ none
    → lookup ℕ_discrete p (prune_peers b min_age now).peers ≡ none
unfolding prune_peers
pruned_absent b min_age now p e = ground (
  arith,
  lookup-remove_peers b p (to_remove min_age now b.peers),
  not_listed min_age now p b.peers e,
)

-- Where a peer stands once in the book: after pruning, a peer is known with a record exactly if it was
-- known with that same record before and is not stale. A peer is stale if it has no connection, its
-- latest failure, if it has one, is at least as old as asked, none of its addresses is confirmed, and
-- those still to be probed are at least as old as asked, and ten seconds old.
pub prune_peers_lem :
    (b : AddressBook) (min_age now : ℕ) (p : PeerId) (info : PeerInfo)
    → Distinct ℕ_discrete b.peers
    → (lookup ℕ_discrete p (prune_peers b min_age now).peers ≡ some info)
      ↔ (lookup ℕ_discrete p b.peers ≡ some info) × ¬ IsStale min_age now info
prune_peers_lem b min_age now p info d = (
  λ h. elim (Option-cases (lookup ℕ_discrete p b.peers)) [
    | inl e ↦ absurd (ground (arith, h, pruned_absent b min_age now p e))
    | inr (other, e) ↦
        let k = pruned b min_age now p other d e in
        (ground (arith, h, k), λ s. absurd (ground (arith, h, k, IsStale-keeps min_age now info s)))
  ],
  λ h. elim (Bool-cases (keeps min_age now info)) [
    | inl k ↦ ground (arith, pruned b min_age now p info d h.0)
    | inr k ↦ absurd (h.1 (keeps-IsStale min_age now info k))
  ],
)
