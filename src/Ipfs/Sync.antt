-- ===== src/Ipfs/Sync.antt =====
-- src/lib.rs and src/net/mod.rs: how a sync starts.
use ipfs_embed.Prelude.{ℕ, List, [], ◌∷◌, some, none, ◌≡◌, ◌⊎◌, ◌↔◌, ◌||◌, true, String}
use ipfs_embed.Result.{Result, ok, err}
use ipfs_embed.Multiaddr.{PeerId}
use ipfs_embed.Network.State.{Cid}
use ipfs_embed.Network.Service as Command
use ipfs_embed.Network.Client.{Commands, SyncAnswer, ready, asked, refused}
use ipfs_embed.Storage.State.{Storage}
use ipfs_embed.Storage.Service
use ipfs_embed.Ipfs

-- What a sync of missing blocks begins with, and when.
abbrev pub Begun : Result (List Cid) → List PeerId → Commands → SyncAnswer → Type 0
Begun r providers c a =
    ((a ≡ ready none) ↔ ((r ≡ ok []) ⊎ ((e : ℕ) × (r ≡ err e))))
    × ((m : Cid)
        → (a ≡ ready (some m)) ↔ ((providers ≡ []) × ((rest : List Cid) × (r ≡ ok (m ∷ rest)))))
    × (((reason : String) × (a ≡ asked (refused reason))) ↔ (
        ((p : PeerId) × (ps : List PeerId) × (providers ≡ p ∷ ps))
        × ((m : Cid) × (rest : List Cid) × (r ≡ ok (m ∷ rest)))
        × (c.disconnected || c.full ≡ true)))
