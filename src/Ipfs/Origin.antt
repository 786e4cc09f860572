-- ===== src/Ipfs/Origin.antt =====
-- src/lib.rs: where the block comes from that `fetch` gives.
use ipfs_embed.Prelude.{
  ℕ, List, [], ◌∷◌, Option, some, none, ◌≡◌, refl, sym, ap, ◌∙◌, subst, arith, inl, inr, ◌⊎◌,
}
use ipfs_embed.Result.{Result, ok, err, Result-cases}
use ipfs_embed.Multiaddr.{PeerId}
use ipfs_embed.Network.State.{Cid, Bytes}
use ipfs_embed.Storage.State.{BlockStore, Block, Storage}
use ipfs_embed.Storage.Spec.{IsBlockStore}
use ipfs_embed.Storage.Refinement.{held, service-IsStorage}
use ipfs_embed.Storage.Origin.{
  Run, Among, Collects, get-Among, quiet, grown, looked, got, inserted, missing_asked,
}
use ipfs_embed.Storage.Service
use ipfs_embed.Ipfs
use ipfs_embed.Ipfs.Calls.{
  BitswapCall, contains_call, get_call, insert_call, missing_call, bitswap_call,
}

-- The blocks that bitswap inserts, the last one first.
abbrev pub arrivals : List BitswapCall → List Block → List Block
arrivals [] bs = bs
arrivals (insert_call b ∷ calls) bs = arrivals calls (b ∷ bs)
arrivals (_ ∷ calls) bs = arrivals calls bs

module _ {S T P : Type 0} (db : BlockStore S T P) where
  unfoldable pub bitswap_calls : List BitswapCall → Storage S → Storage S
  bitswap_calls [] s = s
  bitswap_calls (c ∷ calls) s = bitswap_calls calls (bitswap_call db c s)

  -- What the network does to the storage is a run of it.
  pub bitswap_calls-Run :
      {s : Storage S} (calls : List BitswapCall) {bs : List Block} {s' : Storage S}
      → Run db s bs s'
      → Run db s (arrivals calls bs) (bitswap_calls calls s')
  unfolding bitswap_calls bitswap_call
  bitswap_calls-Run [] run = run
  bitswap_calls-Run (contains_call cid ∷ calls) run =
      bitswap_calls-Run calls (quiet run (looked cid))
  bitswap_calls-Run (get_call cid ∷ calls) run = bitswap_calls-Run calls (quiet run (got cid))
  bitswap_calls-Run (insert_call b ∷ calls) run = bitswap_calls-Run calls (grown run (inserted b))
  bitswap_calls-Run (missing_call cid ∷ calls) run =
      bitswap_calls-Run calls (quiet run (missing_asked cid))

module _ {S T P : Type 0} (db : BlockStore S T P) (laws : IsBlockStore db) (gc : Collects db laws)
    (not_found : Cid → ℕ) where
  abbrev pub Came : Cid → List Block → Storage S → Block → Type 0
  Came cid bs s b =
      (b.cid ≡ cid) × (Among cid b.data_ bs ⊎ ((held db laws s).block cid ≡ some b.data_))

  from_block :
      {s : Storage S} {bs : List Block} {s' : Storage S} {cid : Cid} {b : Block}
      (found : Option Bytes)
      → Run db s bs s'
      → (Service.get db cid s').0 ≡ ok found
      → Ipfs.or_not_found db not_found cid found ≡ ok b
      → Came cid bs s b
  from_block {b} none run h same = absurd (cc same)
  from_block {s} {bs} {cid} {b} (some d) run h same =
      subst (Came cid bs s) (cc same) (refl, get-Among db laws gc run h)

  -- A block that `get` gives after a run.
  get-Came :
      {s : Storage S} {bs : List Block} {s' : Storage S} {cid : Cid} {b : Block}
      → Run db s bs s'
      → (Ipfs.get db not_found cid s').0 ≡ ok b
      → Came cid bs s b
  unfolding Ipfs.get
  get-Came {s'} {cid} run h = elim (Result-cases (Service.get db cid s').0) [
    | inl (found, r) ↦ from_block found run r (ground (arith, h, r))
    | inr (e, r) ↦ absurd (cc (h, r))
  ]

  asked-Came :
      {s : Storage S} {bs : List Block} {cid : Cid} {b : Block} (r : Result (Unit {0}) × Storage S)
      → Run db s bs r.1
      → (Ipfs.asked db not_found cid r).0 ≡ ok b
      → Came cid bs s b
  unfolding Ipfs.asked
  asked-Came (ok _, s') run h = get-Came run h
  asked-Came (err e, s') run h = absurd (cc h)

  fetched-Came :
      (cid : Cid) (network_get : List PeerId → Ipfs.Awaited S) (providers : List PeerId) (b : Block)
      (bs : List Block) (found : Option Bytes) (s : Storage S)
      → (held db laws s).block cid ≡ found
      → ((x : Storage S) → Run db x bs (network_get providers x).1)
      → (Ipfs.fetched db not_found cid network_get providers found s).0 ≡ ok b
      → Came cid bs s b
  unfolding Ipfs.fetched Ipfs.fetch_missing
  fetched-Came cid network_get providers b bs (some d) s kept runs h =
      subst (Came cid bs s) (cc h) (refl, inr kept)
  fetched-Came cid network_get [] b bs none s kept runs h = absurd (cc h)
  fetched-Came cid network_get (p ∷ ps) b bs none s kept runs h =
      asked-Came (network_get (p ∷ ps) s) (runs s) h

  -- If the network acts on the storage by operations of it, with garbage collections in between, then
  -- a block that `fetch` gives has the identifier that was asked for, and its data was inserted
  -- under it by the network, or was held before.
  pub fetch-Came :
      (cid : Cid) (network_get : List PeerId → Ipfs.Awaited S) (providers : List PeerId)
      (s : Storage S) (b : Block) (bs : List Block)
      → ((x : Storage S) → Run db x bs (network_get providers x).1)
      → (Ipfs.fetch db not_found cid network_get providers s).0 ≡ ok b
      → Came cid bs s b
  unfolding Ipfs.fetch
  fetch-Came cid network_get providers s b bs runs h =
      let refines = (service-IsStorage db laws).get_refines cid s in
      elim (Result-cases (Service.get db cid s).0) [
        | inl (found, r) ↦
            (let (same, v) = refines.0 found r in
              let (i, from) =
                fetched-Came cid network_get providers b bs found (Service.get db cid s).1
                  (ap (λ w. w.block cid) same ∙ sym v) runs (ground (arith, h, r)) in
              (i, subst (λ w. Among cid b.data_ bs ⊎ (w.block cid ≡ some b.data_)) same from))
        | inr (e, r) ↦ absurd (cc (h, r))
      ]
