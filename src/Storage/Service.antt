-- ===== src/Storage/Service.antt =====
-- src/db.rs: `StorageService`, each operation as one transaction.
use ipfs_embed.Prelude.{List, ◌∷◌, Bool, Option, String}
use ipfs_embed.Result.{Result, ok, err}
use ipfs_embed.Network.State.{Cid, Bytes}
use ipfs_embed.Storage.State.{Action, BlockStore, Block, Storage}
use ipfs_embed.Storage.Batch

abbrev pub counted : {S : Type 0} → String → Storage S → Storage S
counted op s = record s { queries_total = op ∷ s.queries_total }

abbrev pub timed : {S : Type 0} → String → Storage S → Storage S
timed op s = record s { query_duration = op ∷ s.query_duration }

module _ {S T P : Type 0} (db : BlockStore S T P) where
  -- The error of a commit takes the place of the result.
  unfoldable pub committed : {R : Type 0} → R → Result (Unit {0}) × S → Result R × S
  committed r (ok _, s) = (ok r, s)
  committed r (err e, s) = (err e, s)

  unfoldable pub finish : {R : Type 0} → Result R → T → Result R × S
  unfolding committed
  finish (ok r) t = committed r (db.commit t)
  finish (err e) t = (err e, db.rollback t)

  -- `rw` for an operation that changes `E`, what its closure borrows. The drop of the second timer
  -- records its time also on an error.
  unfoldable pub rw_with :
      {R E : Type 0} → String → (T → (Result R × E) × T) → Storage S → (Result R × E) × Storage S
  unfolding finish
  rw_with op f s =
      let ((res, e), t) = f (db.transaction s.store) in
      let (res', store') = finish res t in
      ((res', e), timed op (timed "lock_wait" (counted op (record s { store = store' }))))

  unfoldable pub rw : {R : Type 0} → String → Action T R → Action (Storage S) R
  unfolding rw_with
  rw op f s =
      let ((res, _), s') = rw_with {E = Unit {0}} op (λ t. let (r, t') = f t in ((r, tt), t')) s in
      (res, s')

  unfoldable pub create_temp_pin : Action (Storage S) P
  create_temp_pin = rw "create_temp_pin" (Batch.create_temp_pin db)

  unfoldable pub temp_pin : P → List Cid → Storage S → (Result (Unit {0}) × P) × Storage S
  temp_pin temp links = rw_with "temp_pin" (Batch.temp_pin db temp links)

  unfoldable pub iter : Action (Storage S) (List Cid)
  iter = rw "iter" (Batch.iter db)

  unfoldable pub contains : Cid → Action (Storage S) Bool
  contains cid = rw "contains" (Batch.contains db cid)

  unfoldable pub get : Cid → Action (Storage S) (Option Bytes)
  get cid = rw "get" (Batch.get db cid)

  unfoldable pub insert : Block → Action (Storage S) (Unit {0})
  insert block = rw "insert" (Batch.insert db block)

  unfoldable pub alias : Bytes → Option Cid → Action (Storage S) (Unit {0})
  alias name cid = rw "alias" (Batch.alias db name cid)

  unfoldable pub aliases : Action (Storage S) (List (Bytes × Cid))
  aliases = rw "aliases" (Batch.aliases db)

  unfoldable pub resolve : Bytes → Action (Storage S) (Option Cid)
  resolve name = rw "resolve" (Batch.resolve db name)

  unfoldable pub reverse_alias : Cid → Action (Storage S) (Option (List Bytes))
  reverse_alias cid = rw "reverse_alias" (Batch.reverse_alias db cid)

  unfoldable pub missing_blocks : Cid → Action (Storage S) (List Cid)
  missing_blocks cid = rw "missing_blocks" (Batch.missing_blocks db cid)
