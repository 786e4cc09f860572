-- ===== src/Storage/Origin.antt =====
-- src/db.rs: where the blocks come from that the storage gives out.
use ipfs_embed.Prelude.{
  ℕ, List, [], ◌∷◌, ◌≡◌, ◌==◌, refl, sym, ap, ◌∙◌, Option, some, none, arith, ◌⊎◌, inl, inr,
  Bool-cases,
}
use ipfs_embed.Result.{ok, Result-cases}
use ipfs_embed.Network.State.{Cid, Bytes}
use ipfs_embed.Storage.State.{Action, BlockStore, Block, Storage}
use ipfs_embed.Storage.Spec.{
  unpinned, IsBlock, IsHeld, IsNamed, IsMissing, Anything, Alias, View, Spec, Reads, Refines,
  IsBlockStore,
}
use ipfs_embed.Storage.Refinement.{IsStorage, held, service-IsStorage}
use ipfs_embed.Storage.Service
use ipfs_embed.Storage.Collection

-- An operation of the service, or a round of the garbage collector, with the block that it inserts.
pub data Step {S T P : Type 0} (db : BlockStore S T P) (s : Storage S)
    : Option Block → Storage S → Type 0 where
  pinned : (temp : P) (links : List Cid) → Step db s none (Service.temp_pin db temp links s).1
  pin_made : Step db s none (Service.create_temp_pin db s).1
  listed : Step db s none (Service.iter db s).1
  looked : (cid : Cid) → Step db s none (Service.contains db cid s).1
  got : (cid : Cid) → Step db s none (Service.get db cid s).1
  inserted : (block : Block) → Step db s (some block) (Service.insert db block s).1
  aliased : (name : Bytes) (cid : Option Cid) → Step db s none (Service.alias db name cid s).1
  names_listed : Step db s none (Service.aliases db s).1
  resolved : (name : Bytes) → Step db s none (Service.resolve db name s).1
  names_asked : (cid : Cid) → Step db s none (Service.reverse_alias db cid s).1
  missing_asked : (cid : Cid) → Step db s none (Service.missing_blocks db cid s).1
  collected : Step db s none (Collection.gc_task_round db s)

-- Operations one after the other, with the blocks that were inserted, the last one first.
pub data Run {S T P : Type 0} (db : BlockStore S T P) (s : Storage S)
    : List Block → Storage S → Type 0 where
  nothing : Run db s [] s
  quiet :
      {bs : List Block} {now after : Storage S}
      → Run db s bs now
      → Step db now none after
      → Run db s bs after
  grown :
      {bs : List Block} {b : Block} {now after : Storage S}
      → Run db s bs now
      → Step db now (some b) after
      → Run db s (b ∷ bs) after

-- The garbage collector brings no blocks.
abbrev pub Collects : {S T P : Type 0} (db : BlockStore S T P) → IsBlockStore db → Type 0
Collects {S} db laws =
    (least longest : ℕ) (s : S) (c : Cid) (d : Bytes)
    → (laws.seen (db.incremental_gc least longest s).1).block c ≡ some d
    → (laws.seen s).block c ≡ some d

-- One of the blocks has the identifier and the data.
pub data Among (c : Cid) (d : Bytes) : List Block → Type 0 where
  here : {b : Block} {bs : List Block} → b.cid ≡ c → b.data_ ≡ d → Among c d (b ∷ bs)
  there : {b : Block} {bs : List Block} → Among c d bs → Among c d (b ∷ bs)

module _ {S T P : Type 0} (db : BlockStore S T P) (laws : IsBlockStore db)
    (gc : Collects db laws) where
  -- An operation that keeps the blocks where it succeeds keeps them where it fails.
  kept_block :
      {A : Type 0} (R : Spec A) (f : Action (Storage S) A)
      → ((v v' : View) (a : A) → R v a v' → v'.block ≡ v.block)
      → Refines (held db laws) f R
      → {s : Storage S} {c : Cid} {d : Bytes} {W : Type 0} → (held db laws (f s).1).block c ≡ some d
      → W ⊎ ((held db laws s).block c ≡ some d)
  kept_block R f keeps refines {s} {c} h = elim (Result-cases (f s).0) [
    | inl (a, r) ↦ inr (ap (λ b. b c) (sym (keeps _ _ a ((refines s).0 a r))) ∙ h)
    | inr (e, r) ↦ inr (ap (λ v. v.block c) (sym ((refines s).1 e r)) ∙ h)
  ]

  read_block :
      {A : Type 0} (Q : View → A → Type 0) (f : Action (Storage S) A)
      → Refines (held db laws) f (Reads Q)
      → {s : Storage S} {c : Cid} {d : Bytes} {W : Type 0} → (held db laws (f s).1).block c ≡ some d
      → W ⊎ ((held db laws s).block c ≡ some d)
  read_block Q f refines h =
      kept_block (Reads Q) f (λ v v' a same. ap (λ w. w.block) same.0) refines h

  inserted_block :
      (b : Block) (s : Storage S) (c : Cid) (d : Bytes)
      → (held db laws (Service.insert db b s).1).block c ≡ some d
      → ((b.cid ≡ c) × (b.data_ ≡ d)) ⊎ ((held db laws s).block c ≡ some d)
  inserted_block b s c d h =
      let (done, failed) = (service-IsStorage db laws).insert_refines b s in
      elim (Result-cases (Service.insert db b s).0) [
        | inl (a, r) ↦
            (let put = (done a r).0 c in
              elim (Bool-cases (b.cid == c)) [
                | inl same ↦ inl (ground (arith, same), ground (arith, same, put, h))
                | inr other ↦ inr ground (arith, other, put, h)
              ])
        | inr (e, r) ↦ inr (ap (λ v. v.block c) (sym (failed e r)) ∙ h)
      ]

  abbrev implemented : IsStorage db laws
  implemented = service-IsStorage db laws

  step_lem :
      {new : Option Block} {s s' : Storage S} {c : Cid} {d : Bytes}
      → Step db s new s'
      → (held db laws s').block c ≡ some d
      → ((b : Block) × (new ≡ some b) × (b.cid ≡ c) × (b.data_ ≡ d))
        ⊎ ((held db laws s).block c ≡ some d)
  unfolding Collection.gc_task_round Collection.collect_round
  step_lem (pinned temp links) h =
      read_block Anything (unpinned (Service.temp_pin db temp links))
        (implemented.temp_pin_refines temp links) h
  step_lem pin_made h =
      read_block Anything (Service.create_temp_pin db) implemented.create_temp_pin_refines h
  step_lem listed h = read_block Anything (Service.iter db) implemented.iter_refines h
  step_lem (looked cid) h =
      read_block (IsHeld cid) (Service.contains db cid) (implemented.contains_refines cid) h
  step_lem (got cid) h =
      read_block (IsBlock cid) (Service.get db cid) (implemented.get_refines cid) h
  step_lem names_listed h = read_block Anything (Service.aliases db) implemented.aliases_refines h
  step_lem (resolved name) h =
      read_block (IsNamed name) (Service.resolve db name) (implemented.resolve_refines name) h
  step_lem (names_asked cid) h =
      read_block Anything (Service.reverse_alias db cid) (implemented.reverse_alias_refines cid) h
  step_lem (missing_asked cid) h =
      read_block (IsMissing cid) (Service.missing_blocks db cid) (implemented.missing_refines cid) h
  step_lem (aliased name cid) h =
      kept_block (Alias name cid) (Service.alias db name cid) (λ v v' a x. x.0)
        (implemented.alias_refines name cid) h
  step_lem {s} {c} {d} (inserted b) h = elim (inserted_block b s c d h) [
    | inl (i, j) ↦ inl (b, refl, i, j)
    | inr old ↦ inr old
  ]
  step_lem {s} {c} {d} collected h = inr (gc s.gc_min_blocks s.gc_target_duration s.store c d h)

  held-Among :
      {s : Storage S} {bs : List Block} {s' : Storage S} {c : Cid} {d : Bytes}
      → Run db s bs s'
      → (held db laws s').block c ≡ some d
      → Among c d bs ⊎ ((held db laws s).block c ≡ some d)
  held-Among nothing h = inr h
  held-Among (quiet run step) h = elim (step_lem step h) [
    | inl (b, bad, i, j) ↦ absurd (cc bad)
    | inr old ↦ held-Among run old
  ]
  held-Among (grown {b} run step) h = elim (step_lem step h) [
    | inl (b', same, i, j) ↦ inl (here (ground (arith, same, i)) (ground (arith, same, j)))
    | inr old ↦ elim (held-Among run old) [ inl a ↦ inl (there a) | inr o ↦ inr o ]
  ]

  -- Whatever operations and garbage collections follow each other, failed ones included: a block
  -- that `get` then gives has been inserted by one of them, with the same data, or was in the
  -- store at the beginning.
  pub get-Among :
      {s : Storage S} {bs : List Block} {s' : Storage S} {c : Cid} {d : Bytes}
      → Run db s bs s'
      → (Service.get db c s').0 ≡ ok (some d)
      → Among c d bs ⊎ ((held db laws s).block c ≡ some d)
  get-Among {s'} {c} run h = held-Among run (sym ((implemented.get_refines c s').0 _ h).1)
