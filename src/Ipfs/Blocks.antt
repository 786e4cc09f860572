-- ===== src/Ipfs/Blocks.antt =====
-- src/lib.rs: the blocks that `get` and `fetch` give.
use ipfs_embed.Prelude.{
  ℕ, List, [], ◌∷◌, Option, some, none, ◌≡◌, refl, sym, ap, ◌∙◌, arith, inl, inr,
}
use ipfs_embed.Result.{Result, ok, err, Result-cases}
use ipfs_embed.Multiaddr.{PeerId}
use ipfs_embed.Network.State.{Cid, Bytes}
use ipfs_embed.Storage.State.{BlockStore, Block, Storage}
use ipfs_embed.Storage.Spec.{IsBlockStore}
use ipfs_embed.Storage.Refinement.{held, service-IsStorage}
use ipfs_embed.Storage.Service
use ipfs_embed.Ipfs

module _ {S T P : Type 0} (db : BlockStore S T P) (laws : IsBlockStore db)
    (not_found : Cid → ℕ) where
  abbrev Answered : Cid → Storage S → Type 0
  Answered cid s = (found : Option Bytes) × ((Service.get db cid s).0 ≡ ok found)

  get_answer :
      (cid : Cid) (s : Storage S) (found : Option Bytes)
      → (Service.get db cid s).0 ≡ ok found
      → (held db laws (Service.get db cid s).1).block cid ≡ found
  get_answer cid s found h =
      let (same, v) = ((service-IsStorage db laws).get_refines cid s).0 found h in
      ap (λ w. w.block cid) same ∙ sym v

  -- Where the storage does not fail, `get` gives the block that is held, with the identifier that
  -- was asked for, and otherwise that it is not found.
  pub get_lem :
      (cid : Cid) (s : Storage S)
      → ((x : Storage S) → Answered cid x)
      → (Ipfs.get db not_found cid s).0
        ≡ Ipfs.or_not_found db not_found cid
            ((held db laws (Ipfs.get db not_found cid s).1).block cid)
  unfolding Ipfs.get
  get_lem cid s works = let (found, h) = works s in ground (arith, h, get_answer cid s found h)

  pub asked_lem :
      (cid : Cid) (r : Result (Unit {0}) × Storage S)
      → ((x : Storage S) → Answered cid x)
      → r.0 ≡ ok tt
      → (Ipfs.asked db not_found cid r).0
        ≡ Ipfs.or_not_found db not_found cid
            ((held db laws (Ipfs.asked db not_found cid r).1).block cid)
  unfolding Ipfs.asked
  asked_lem cid (ok _, s) works h = get_lem cid s works
  asked_lem cid (err e, s) works h = absurd (cc h)

  fetched_lem :
      (cid : Cid) (network_get : List PeerId → Ipfs.Awaited S) (providers : List PeerId)
      (found : Option Bytes) (s : Storage S)
      → (held db laws s).block cid ≡ found
      → ((x : Storage S) → Answered cid x)
      → ((x : Storage S) → (network_get providers x).0 ≡ ok tt)
      → (Ipfs.fetched db not_found cid network_get providers found s).0
        ≡ Ipfs.or_not_found db not_found cid (
            (held db laws (Ipfs.fetched db not_found cid network_get providers found s).1).block
              cid)
  unfolding Ipfs.fetched Ipfs.fetch_missing
  fetched_lem cid network_get providers (some d) s h works net = rw h refl
  fetched_lem cid network_get [] none s h works net = rw h refl
  fetched_lem cid network_get (p ∷ ps) none s h works net =
      asked_lem cid (network_get (p ∷ ps) s) works (net s)

  -- Where neither the storage nor the network fails, `fetch` gives the block if it is held at the
  -- end, with the identifier that was asked for and the data that is held, and otherwise that it
  -- is not found.
  pub fetch_lem :
      (cid : Cid) (network_get : List PeerId → Ipfs.Awaited S) (providers : List PeerId)
      (s : Storage S)
      → ((x : Storage S) → Answered cid x)
      → ((x : Storage S) → (network_get providers x).0 ≡ ok tt)
      → (Ipfs.fetch db not_found cid network_get providers s).0
        ≡ Ipfs.or_not_found db not_found cid
            ((held db laws (Ipfs.fetch db not_found cid network_get providers s).1).block cid)
  unfolding Ipfs.fetch
  fetch_lem cid network_get providers s works net =
      let (found, h) = works s in
      rw (Ipfs.fetch, h)
        (fetched_lem cid network_get providers found (Service.get db cid s).1
          (get_answer cid s found h) works net)

  -- A block that is held is given without the network: whatever two networks and lists of
  -- providers there are, the results and the storages are the same.
  fetch_local :
      (cid : Cid) (network_get other : List PeerId → Ipfs.Awaited S)
      (providers others : List PeerId) (s : Storage S) (d : Bytes)
      → (held db laws s).block cid ≡ some d
      → Ipfs.fetch db not_found cid network_get providers s
        ≡ Ipfs.fetch db not_found cid other others s
  unfolding Ipfs.fetch Ipfs.fetched
  fetch_local cid network_get other providers others s d h =
      elim (Result-cases (Service.get db cid s).0) [
        | inl (found, r) ↦
            ground (arith, r, h, ((service-IsStorage db laws).get_refines cid s).0 found r)
        | inr (e, r) ↦ ground (arith, r)
      ]

  -- If the insertion of a block succeeds, and so does the storage in the next `get` of its
  -- identifier, then that `get` gives the block.
  pub get-insert :
      (b : Block) (s : Storage S)
      → (Service.insert db b s).0 ≡ ok tt
      → Answered b.cid (Service.insert db b s).1
      → (Ipfs.get db not_found b.cid (Ipfs.insert db not_found b s).1).0 ≡ ok b
  unfolding Ipfs.get Ipfs.insert
  get-insert b s done (found, h) =
      let put = ((service-IsStorage db laws).insert_refines b s).0 tt done in
      ground (
        arith,
        h,
        put.0 b.cid,
        ((service-IsStorage db laws).get_refines b.cid (Service.insert db b s).1).0 found h,
      )
