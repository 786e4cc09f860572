-- ===== src/Examples/IpfsAt.antt =====
-- The theorems on the API at a block store in memory, and a network that brings the block.
use ipfs_embed.Prelude.{insert, List, [], ◌∷◌, Option, some, ◌≡◌, refl, ◌⊎◌, ℕ, lookup, ℕ_discrete}
use ipfs_embed.Result.{ok}
use ipfs_embed.Network.State.{Cid, Bytes}
use ipfs_embed.Storage.State.{Storage}
use ipfs_embed.Storage.Service
use ipfs_embed.Storage.Batch
use ipfs_embed.Storage.Refinement.{held}
use ipfs_embed.Ipfs
use ipfs_embed.Ipfs.{Awaited}
use ipfs_embed.Ipfs.Blocks.{fetch_lem, get-insert}
use ipfs_embed.Network.Client.{Commands}
use ipfs_embed.Prelude.{true, false}
use ipfs_embed.Ipfs.Calls.{bitswap_call, get_call, insert_call, contains_call}
use ipfs_embed.Ipfs.Origin.{bitswap_calls, bitswap_calls-Run, fetch-Came}
use ipfs_embed.Storage.Origin.{Among, nothing}
use ipfs_embed.Examples.StorageAt.{Disk, memory, memory_laws, cat, serving, gathers}

abbrev not_found : Cid → ℕ
not_found c = c

abbrev stored : Storage Disk
stored = serving ((7, 1 ∷ 2 ∷ []) ∷ [])

-- The network brings the block and puts it into the storage, or does nothing.
abbrev bringing : List ℕ → Awaited Disk
bringing providers s = Service.insert memory cat s

abbrev idle : List ℕ → Awaited Disk
idle providers s = (ok tt, s)

never_fails :
    (c : Cid) (x : Storage Disk) → (found : Option Bytes) × ((Service.get memory c x).0 ≡ ok found)
unfolding Service.get Service.rw Batch.get
never_fails c x = (lookup ℕ_discrete c x.store.blocks, refl)

brings : (x : Storage Disk) → (bringing (5 ∷ []) x).0 ≡ ok tt
unfolding Service.insert Service.rw Batch.insert
brings x = refl

fetch_lem_example :
    (Ipfs.fetch memory not_found 7 bringing (5 ∷ []) (serving [])).0
    ≡ Ipfs.or_not_found memory not_found 7 (
        (held memory memory_laws
            (Ipfs.fetch memory not_found 7 bringing (5 ∷ []) (serving [])).1).block
          7)
fetch_lem_example =
    fetch_lem memory memory_laws not_found 7 bringing (5 ∷ []) (serving []) (never_fails 7) brings

get-insert_example :
    (Ipfs.get memory not_found 7 (Ipfs.insert memory not_found cat (serving [])).1).0 ≡ ok cat
get-insert_example =
    get-insert memory memory_laws not_found cat (serving []) (brings (serving []))
      (never_fails 7 (Service.insert memory cat (serving [])).1)

-- Nothing is held, there is a provider, and the loop has gone.
abbrev closed : Commands
closed = record { disconnected = true; full = false; waiting = [] }

-- Bitswap looks for the block and inserts it.
abbrev exchanging : List ℕ → Awaited Disk
exchanging providers s =
    (ok tt, bitswap_calls memory (get_call 7 ∷ insert_call cat ∷ contains_call 7 ∷ []) s)

fetch-Came_example :
    (◌≡◌ {A = ℕ} 7 7)
    × (Among 7 (1 ∷ 2 ∷ []) (cat ∷ [])
        ⊎ ((held memory memory_laws (serving [])).block 7 ≡ some (1 ∷ 2 ∷ [])))
unfolding Ipfs.fetch Service.get Service.rw Batch.get lookup bitswap_calls bitswap_call
    Service.contains Batch.contains Service.insert Batch.insert insert ℕ_discrete
fetch-Came_example =
    fetch-Came memory memory_laws gathers not_found 7 exchanging (5 ∷ []) (serving []) cat
      (cat ∷ [])
      (λ x. bitswap_calls-Run memory (get_call 7 ∷ insert_call cat ∷ contains_call 7 ∷ []) nothing)
      refl
