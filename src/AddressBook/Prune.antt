-- ===== src/AddressBook/Prune.antt =====
-- src/net/peers.rs: `prune_peers`. Times and ages are in nanoseconds.
use ipfs_embed.Prelude.{
  ℕ, ◌-◌, max, Bool, false, not, ◌&&◌, ◌||◌, List, [], ◌∷◌, Option, none, some, ltb, any, retain,
  map, is_empty, first?, remove, ℕ_discrete,
}
use ipfs_embed.Multiaddr.{Multiaddr, PeerId}
use ipfs_embed.PeerInfo.{PeerInfo}
use ipfs_embed.PeerInfo.Source.{AddressSource, is_confirmed, is_to_probe}
use ipfs_embed.PeerInfo.Failure.{ConnectionFailure}
use ipfs_embed.AddressBook.State.{AddressBook, new_info, notify}

-- `diff_time`: zero where the former time is not the former
abbrev pub diff_time : ℕ → ℕ → ℕ
diff_time former latter = latter - former

abbrev pub ten_seconds : ℕ
ten_seconds = 10000000000

abbrev pub recently_failed : ℕ → ℕ → Option ConnectionFailure → Bool
recently_failed min_age now none = false
recently_failed min_age now (some f) = ltb (diff_time f.time now) min_age

-- one round of the loop over a peer's addresses
abbrev pub keeps_address : ℕ → ℕ → Multiaddr × (AddressSource × ℕ) → Bool
keeps_address min_age now e =
    is_confirmed e.1.0 || (is_to_probe e.1.0 && ltb (diff_time e.1.1 now) (max min_age ten_seconds))

-- whether one of the `continue`s is taken
unfoldable pub keeps : ℕ → ℕ → PeerInfo → Bool
keeps min_age now info =
    not (is_empty info.connections)
    || recently_failed min_age now (first? info.failures)
    || any (keeps_address min_age now) info.addresses

-- the first loop: the peers to remove
unfoldable pub to_remove : ℕ → ℕ → List (PeerId × PeerInfo) → List PeerId
to_remove min_age now peers = map (λ e. e.0) (retain (λ e. not (keeps min_age now e.1)) peers)

-- the second loop
unfoldable pub remove_peers : AddressBook → List PeerId → AddressBook
remove_peers b [] = b
remove_peers b (peer ∷ rest) =
    remove_peers (notify (record b { peers = remove ℕ_discrete peer b.peers }) (new_info peer)) rest

unfoldable pub prune_peers : AddressBook → ℕ → ℕ → AddressBook
prune_peers b min_age now = remove_peers b (to_remove min_age now b.peers)
