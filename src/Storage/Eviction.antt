-- ===== src/Storage/Eviction.antt =====
-- src/db.rs: the eviction loop ends.
use ipfs_embed.Prelude.{ℕ, zero, suc, ◌<◌, ◌≡◌, Bool, true, false, Option, none, some}
use ipfs_embed.Result.{Result, ok, err}
use ipfs_embed.Storage.State.{BlockStore, Storage}
use ipfs_embed.Storage.Collection.{collect_round}

-- An unfinished round of the garbage collection that is to collect at least one block collects
-- something.
abbrev pub Shrinks : {S T P : Type 0} → BlockStore S T P → (S → ℕ) → Type 0
Shrinks {S} db size =
    (least longest : ℕ) (s : S)
    → 0 < least
    → (db.incremental_gc least longest s).0 ≡ ok false
    → size (db.incremental_gc least longest s).1 < size s

module _ {S T P : Type 0} (db : BlockStore S T P) where
  -- Rounds that are neither finished nor failed, one after the other.
  unfoldable pub rounds : ℕ → Storage S → Storage S
  unfolding collect_round
  rounds zero s = s
  rounds (suc n) s = rounds n (collect_round db s).1

  -- What the loop returns on the round that ends it.
  unfoldable pub ends : Result Bool → Option (Result (Unit {0}))
  ends (ok true) = some (ok tt)
  ends (ok false) = none
  ends (err e) = some (err e)
