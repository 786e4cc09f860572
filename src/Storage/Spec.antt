-- ===== src/Storage/Spec.antt =====
-- src/db.rs: what the storage promises, in terms of the blocks and the names that it holds.
use ipfs_embed.Prelude.{
  ℕ, Bool, List, Option, none, ◌≡◌, ◌==◌, if◌then◌else◌, some, ◌≢◌, is_some, All,
}
use ipfs_embed.Result.{Result, ok, err}
use ipfs_embed.Network.State.{Cid, Bytes}
use ipfs_embed.Storage.State.{Action, Block, BlockStore}

pub record View : Type 0 where
  pub block : Cid → Option Bytes
  pub name : Bytes → Option Cid

-- What an operation answers and does to the view, if it succeeds.
abbrev pub Spec : Type 0 → Type 1
Spec A = View → A → View → Type 0

abbrev pub Reads : {A : Type 0} → (View → A → Type 0) → Spec A
Reads P v a v' = (v' ≡ v) × P v a

-- Nothing is said of the answer.
abbrev pub Anything : {A : Type 0} → View → A → Type 0
Anything v a = Unit

abbrev pub IsBlock : Cid → View → Option Bytes → Type 0
IsBlock cid v answer = answer ≡ v.block cid

abbrev pub Get : Cid → Spec (Option Bytes)
Get cid = Reads (IsBlock cid)

abbrev pub IsHeld : Cid → View → Bool → Type 0
IsHeld cid v answer = answer ≡ is_some (v.block cid)

abbrev pub Contains : Cid → Spec (Bool)
Contains cid = Reads (IsHeld cid)

abbrev pub IsNamed : Bytes → View → Option Cid → Type 0
IsNamed n v answer = answer ≡ v.name n

abbrev pub Resolve : Bytes → Spec (Option Cid)
Resolve n = Reads (IsNamed n)

-- The blocks that are missing are not there.
abbrev pub IsMissing : Cid → View → List Cid → Type 0
IsMissing cid v answer = All (λ c. v.block c ≡ none) answer

abbrev pub Missing : Cid → Spec (List Cid)
Missing cid = Reads (IsMissing cid)

abbrev pub Insert : Block → Spec (Unit {0})
Insert b v _ v' =
    ((c : Cid) → v'.block c ≡ (if b.cid == c then some b.data_ else v.block c)) × (v'.name ≡ v.name)

abbrev pub Alias : Bytes → Option Cid → Spec (Unit {0})
Alias n cid v _ v' =
    (v'.block ≡ v.block) × (v'.name n ≡ cid) × ((m : Bytes) → m ≢ n → v'.name m ≡ v.name m)

-- The operation does what the specification says, or fails and leaves the view.
abbrev pub Refines : {X A : Type 0} → (X → View) → Action X A → Spec A → Type 0
Refines {X} {A} seen f R =
    (x : X)
    → ((a : A) → (f x).0 ≡ ok a → R (seen x) a (seen (f x).1))
      × ((e : ℕ) → (f x).0 ≡ err e → seen (f x).1 ≡ seen x)

-- The same of an operation within a transaction: `start` is what it began with.
abbrev pub Works : {T A : Type 0} → (T → View) → (T → View) → Action T A → Spec A → Type 0
Works {T} {A} start now f R =
    (t : T) → (start (f t).1 ≡ start t) × ((a : A) → (f t).0 ≡ ok a → R (now t) a (now (f t).1))

-- An operation on a pin, without the pin.
abbrev pub unpinned : {T P A : Type 0} → (T → (Result A × P) × T) → Action T A
unpinned f t = ((f t).0.0, (f t).1)

-- What the service relies on of the block store: a transaction starts with what is in the store,
-- is seen by nobody else until it commits, and leaves nothing if it is dropped or fails to.
pub record IsBlockStore {S T P : Type 0} (db : BlockStore S T P) : Type 0 where
  pub seen : S → View
  pub start : T → View
  pub now : T → View
  pub transaction_start : (s : S) → start (db.transaction s) ≡ seen s
  pub transaction_now : (s : S) → now (db.transaction s) ≡ seen s
  pub rollback_seen : (t : T) → seen (db.rollback t) ≡ start t
  pub commit_ok : (t : T) → (db.commit t).0 ≡ ok tt → seen (db.commit t).1 ≡ now t
  pub commit_err : (t : T) (e : ℕ) → (db.commit t).0 ≡ err e → seen (db.commit t).1 ≡ start t
  pub temp_pin_works :
      (t : T) → (start (db.temp_pin t).1 ≡ start t) × (now (db.temp_pin t).1 ≡ now t)
  pub extend_works :
      (p : P) (c : Cid) → Works start now (unpinned (db.extend_temp_pin p c)) (Reads Anything)
  pub get_block_cids_works : Works start now db.get_block_cids (Reads Anything)
  pub has_block_works : (c : Cid) → Works start now (db.has_block c) (Contains c)
  pub get_block_works : (c : Cid) → Works start now (db.get_block c) (Get c)
  pub put_block_works : (b : Block) → Works start now (db.put_block b) (Insert b)
  pub resolve_works : (n : Bytes) → Works start now (db.resolve n) (Resolve n)
  pub alias_works : (n : Bytes) (c : Option Cid) → Works start now (db.alias n c) (Alias n c)
  pub aliases_works : Works start now db.aliases (Reads Anything)
  pub reverse_alias_works : (c : Cid) → Works start now (db.reverse_alias c) (Reads Anything)
  pub missing_works : (c : Cid) → Works start now (db.get_missing_blocks c) (Missing c)
