-- ===== src/Ipfs.antt =====
-- src/lib.rs: the API of the node, over its storage and its network.
pub mod Api
pub mod Calls
pub mod Start
pub mod Lifetime
pub mod Starting
pub mod Stopping
pub mod Blocks
pub mod Sync
pub mod Origin
use ipfs_embed.Prelude.{ℕ, List, [], ◌∷◌, Option, some, none}
use ipfs_embed.Result.{Result, ok, err, if_ok}
use ipfs_embed.Multiaddr.{PeerId}
use ipfs_embed.Network.State.{Cid, Bytes}
use ipfs_embed.Network.Service.Streams.{SyncStart, start_sync}
use ipfs_embed.Storage.State.{Action, BlockStore, Block, Storage}
use ipfs_embed.Storage.Service

-- `unwrap_or_default`
unfoldable pub or_default : {A : Type 0} → Result (List A) → List A
or_default (ok xs) = xs
or_default (err e) = []

-- What a network query does while it is awaited, up to what it returns: it changes the storage
-- through `BitswapStorage`.
abbrev pub Awaited : Type 0 → Type 0
Awaited S = Action (Storage S) (Unit {0})

-- `Ipfs::sync`, up to what it asks of the network.
module _ {S T P : Type 0} (db : BlockStore S T P) where
  -- An error of the storage counts as nothing missing.
  unfoldable pub sync : Cid → List PeerId → Storage S → SyncStart × Storage S
  unfolding or_default
  sync cid providers s =
      let (res, s') = Service.missing_blocks db cid s in (start_sync providers (or_default res), s')

-- `not_found` makes an error of libipld's `BlockNotFound`.
module _ {S T P : Type 0} (db : BlockStore S T P) (not_found : Cid → ℕ) where
  -- The block with the data, or the error that there is none.
  abbrev pub or_not_found : Cid → Option Bytes → Result Block
  or_not_found cid (some d) = ok (record { cid = cid; data_ = d })
  or_not_found cid none = err (not_found cid)

  unfoldable pub get : Cid → Action (Storage S) Block
  get cid s = let (res, s') = Service.get db cid s in (if_ok res (or_not_found cid) err, s')

  -- The end of a fetch, where the network was asked: its error, or what is now in the storage.
  unfoldable pub asked : Cid → Result (Unit {0}) × Storage S → Result Block × Storage S
  unfolding get
  asked cid (ok _, s) = get cid s
  asked cid (err e, s) = (err e, s)

  unfoldable pub fetch_missing :
      Cid → (List PeerId → Awaited S) → List PeerId → Action (Storage S) Block
  unfolding asked
  fetch_missing cid network_get [] s = (err (not_found cid), s)
  fetch_missing cid network_get (p ∷ ps) s = asked cid (network_get (p ∷ ps) s)

  unfoldable pub fetched :
      Cid → (List PeerId → Awaited S) → List PeerId → Option Bytes → Action (Storage S) Block
  unfolding fetch_missing
  fetched cid network_get providers (some d) s = (ok (record { cid = cid; data_ = d }), s)
  fetched cid network_get providers none s = fetch_missing cid network_get providers s

  -- `network_get` is the query that the network runs for the block with these providers.
  unfoldable pub fetch : Cid → (List PeerId → Awaited S) → List PeerId → Action (Storage S) Block
  unfolding fetched
  fetch cid network_get providers s =
      let (res, s') = Service.get db cid s in
      if_ok res (λ found. fetched cid network_get providers found s') (λ e. (err e, s'))

  unfoldable pub insert : Block → Action (Storage S) (Unit {0})
  insert block s = let (res, s') = Service.insert db block s in (if_ok res (λ _. ok tt) err, s')
