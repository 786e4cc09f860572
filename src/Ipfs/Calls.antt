-- ===== src/Ipfs/Calls.antt =====
-- src/lib.rs: the calls that the API and the store of bitswap pass on to the storage, and the `Store`
-- trait of libipld on top of them.
use ipfs_embed.Prelude.{ℕ, List, [], ◌∷◌, Option, some, none, Bool}
use ipfs_embed.Result.{Result, ok, err}
use ipfs_embed.Multiaddr.{PeerId}
use ipfs_embed.Network.State.{Cid, Bytes}
use ipfs_embed.Network.Service.Streams.{SyncStart, ready_query, sync_command}
use ipfs_embed.Storage.State.{Action, BlockStore, Block, Storage}
use ipfs_embed.Storage.Service
use ipfs_embed.Storage.Collection
use ipfs_embed.Ipfs

-- `Ipfs`
module _ {S T P : Type 0} (db : BlockStore S T P) where
  unfoldable pub create_temp_pin : Action (Storage S) P
  create_temp_pin = Service.create_temp_pin db

  unfoldable pub temp_pin : P → Cid → Storage S → (Result (Unit {0}) × P) × Storage S
  temp_pin tmp cid = Service.temp_pin db tmp (cid ∷ [])

  unfoldable pub iter : Action (Storage S) (List Cid)
  iter = Service.iter db

  unfoldable pub contains : Cid → Action (Storage S) Bool
  contains cid = Service.contains db cid

  unfoldable pub evict : ℕ → Storage S → Option (Result (Unit {0}) × Storage S)
  evict = Collection.evict db

  unfoldable pub alias : Bytes → Option Cid → Action (Storage S) (Unit {0})
  alias name cid = Service.alias db name cid

  unfoldable pub aliases : Action (Storage S) (List (Bytes × Cid))
  aliases = Service.aliases db

  unfoldable pub resolve : Bytes → Action (Storage S) (Option Cid)
  resolve name = Service.resolve db name

  unfoldable pub reverse_alias : Cid → Action (Storage S) (Option (List Bytes))
  reverse_alias cid = Service.reverse_alias db cid

  unfoldable pub flush : Option ℕ → Action (Storage S) (Unit {0})
  flush = Collection.flush db

  unfoldable pub batch_ops : {R : Type 0} → Action T R → Action (Storage S) R
  batch_ops f = Service.rw db "batch_ops" f

-- `BitswapStorage`, through which the network reads and writes blocks: only these four.
pub data BitswapCall : Type 0 where
  contains_call : Cid → BitswapCall
  get_call : Cid → BitswapCall
  insert_call : Block → BitswapCall
  missing_call : Cid → BitswapCall

unfoldable pub bitswap_call :
    {S T P : Type 0} → BlockStore S T P → BitswapCall → Storage S → Storage S
bitswap_call db (contains_call cid) s = (Service.contains db cid s).1
bitswap_call db (get_call cid) s = (Service.get db cid s).1
bitswap_call db (insert_call block) s = (Service.insert db block s).1
bitswap_call db (missing_call cid) s = (Service.missing_blocks db cid s).1

-- The `Store` trait, where `peers` are the peers that the network knows.
module _ {S T P : Type 0} (db : BlockStore S T P) (not_found : Cid → ℕ) where
  unfoldable pub store_fetch :
      Cid → (List PeerId → Ipfs.Awaited S) → List PeerId → Action (Storage S) Block
  store_fetch cid network_get peers = Ipfs.fetch db not_found cid network_get peers

  -- The end of the sync's query: at once, or by what the swarm makes of it.
  await_sync : SyncStart → Ipfs.Awaited S → Ipfs.Awaited S
  await_sync (ready_query none) swarm s = (ok tt, s)
  await_sync (ready_query (some cid)) swarm s = (err (not_found cid), s)
  await_sync sync_command swarm s = swarm s

  unfoldable pub store_sync : Cid → Ipfs.Awaited S → List PeerId → Ipfs.Awaited S
  unfolding await_sync
  store_sync cid swarm peers s =
      let (start, s') = Ipfs.sync db cid peers s in await_sync start swarm s'
