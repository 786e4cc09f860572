-- ===== src/Storage/Batch.antt =====
-- src/db.rs: `Batch`, the operations within a transaction.
use ipfs_embed.Prelude.{List, [], ◌∷◌, Bool, Option}
use ipfs_embed.Result.{Result, ok, err, if_ok}
use ipfs_embed.Network.State.{Cid, Bytes}
use ipfs_embed.Storage.State.{Action, BlockStore, Block}

module _ {S T P : Type 0} (db : BlockStore S T P) where
  unfoldable pub create_temp_pin : Action T P
  create_temp_pin t = let (temp, t') = db.temp_pin t in (ok temp, t')

  -- The first error ends the loop. The caller's pin is changed in place.
  unfoldable pub temp_pin : P → List Cid → T → (Result (Unit {0}) × P) × T
  temp_pin temp [] t = ((ok tt, temp), t)
  temp_pin temp (link ∷ rest) t =
      let ((res, temp'), t') = db.extend_temp_pin temp link t in
      if_ok res (λ _. temp_pin temp' rest t') (λ e. ((err e, temp'), t'))

  unfoldable pub iter : Action T (List Cid)
  iter t = db.get_block_cids t

  unfoldable pub contains : Cid → Action T Bool
  contains cid t = db.has_block cid t

  unfoldable pub get : Cid → Action T (Option Bytes)
  get cid t = db.get_block cid t

  unfoldable pub insert : Block → Action T (Unit {0})
  insert block t = db.put_block block t

  unfoldable pub resolve : Bytes → Action T (Option Cid)
  resolve name t = db.resolve name t

  unfoldable pub alias : Bytes → Option Cid → Action T (Unit {0})
  alias name cid t = db.alias name cid t

  unfoldable pub aliases : Action T (List (Bytes × Cid))
  aliases t = db.aliases t

  unfoldable pub reverse_alias : Cid → Action T (Option (List Bytes))
  reverse_alias cid t = db.reverse_alias cid t

  unfoldable pub missing_blocks : Cid → Action T (List Cid)
  missing_blocks cid t = db.get_missing_blocks cid t
