-- ===== src/Examples/StorageAt.antt =====
-- A block store in memory, and the theorems on the storage and the API at it.
use ipfs_embed.Prelude.{
  ℕ, List, [], ◌∷◌, Option, some, none, ◌≡◌, refl, ℕ_discrete, lookup, insert, lookup-insert, arith,
  Bool, true, false, is_some, length, ◌⊎◌, ◌≢◌, remove, lookup-remove, All, subst, sym, ◌∙◌,
}
use mathlib.Core.List.{List-discrete}
use mathlib.Core.Logic.{if_pos, if_neg}
use ipfs_embed.Result.{Result, ok}
use ipfs_embed.Network.State.{Cid, Bytes}
use ipfs_embed.Storage.State.{BlockStore, Block, Storage}
use ipfs_embed.Storage.Refinement.{held, IsStorage, service-IsStorage}
use ipfs_embed.Storage.Collection.{gc_task_round}
use ipfs_embed.Storage.Origin.{
  Collects, Among, nothing, grown, quiet, inserted, collected, get-Among,
}
use ipfs_embed.Storage.Service
use ipfs_embed.Storage.Service.{get}
use ipfs_embed.Storage.Spec.{View, IsBlockStore}

pub record Disk : Type 0 where
  pub blocks : List (Cid × Bytes)
  pub names : List (Bytes × Cid)

abbrev bytes_discrete : Discrete Bytes
bytes_discrete = List-discrete ℕ_discrete

abbrev renamed : Bytes → Option Cid → List (Bytes × Cid) → List (Bytes × Cid)
renamed n none m = remove bytes_discrete n m
renamed n (some c) m = insert bytes_discrete n c m

abbrev only_missing : Cid → Option Bytes → List Cid
only_missing c none = c ∷ []
only_missing c (some d) = []

-- Blocks have no links, and a round of the collector drops the first block.
abbrev dropped : List (Cid × Bytes) → Result Bool × List (Cid × Bytes)
dropped [] = (ok true, [])
dropped ((c, d) ∷ bs) = (ok false, remove ℕ_discrete c bs)

-- A transaction is what it started with, and what it has now.
abbrev pub memory : BlockStore Disk (Disk × Disk) ℕ
memory = record {
  transaction = λ s. (s, s);
  commit = λ t. (ok tt, t.1);
  rollback = λ t. t.0;
  temp_pin = λ t. (0, t);
  extend_temp_pin = λ p c t. ((ok tt, p), t);
  get_block_cids = λ t. (ok [], t);
  has_block = λ c t. (ok (is_some (lookup ℕ_discrete c (t.1.blocks))), t);
  get_block = λ c t. (ok (lookup ℕ_discrete c (t.1.blocks)), t);
  put_block = λ b t.
      (ok tt, (t.0, record (t.1) { blocks = insert ℕ_discrete (b.cid) (b.data_) (t.1.blocks) }));
  resolve = λ n t. (ok (lookup bytes_discrete n (t.1.names)), t);
  alias = λ n c t. (ok tt, (t.0, record (t.1) { names = renamed n c (t.1.names) }));
  aliases = λ t. (ok (t.1.names), t);
  reverse_alias = λ c t. (ok none, t);
  get_missing_blocks = λ c t. (ok (only_missing c (lookup ℕ_discrete c (t.1.blocks))), t);
  incremental_gc =
      λ least longest s. (let (r, bs) = dropped s.blocks in (r, record s { blocks = bs }));
  flush = λ s. (ok tt, s);
  get_store_stats = λ s. (ok (length s.blocks, 0), s);
}

abbrev view : Disk → View
view d = record {
  block = λ c. lookup ℕ_discrete c d.blocks;
  name = λ n. lookup bytes_discrete n d.names;
}

absent :
    (m : List (Cid × Bytes)) (c : Cid) (o : Option Bytes)
    → lookup ℕ_discrete c m ≡ o
    → All (λ e. lookup ℕ_discrete e m ≡ none) (only_missing c o)
absent m c none h = (h, tt)
absent m c (some d) h = tt

renamed_same :
    (n : Bytes) (c : Option Cid) (m : List (Bytes × Cid))
    → lookup bytes_discrete n (renamed n c m) ≡ c
renamed_same n none m = lookup-remove bytes_discrete n n m ∙ if_pos (bytes_discrete n n) refl _ _
renamed_same n (some c) m =
    lookup-insert bytes_discrete n n c m ∙ if_pos (bytes_discrete n n) refl _ _

renamed_other :
    (n : Bytes) (c : Option Cid) (m : List (Bytes × Cid)) (k : Bytes)
    → k ≢ n
    → lookup bytes_discrete k (renamed n c m) ≡ lookup bytes_discrete k m
renamed_other n none m k h =
    lookup-remove bytes_discrete n k m ∙ if_neg (bytes_discrete n k) (λ e. h (sym e)) _ _
renamed_other n (some c) m k h =
    lookup-insert bytes_discrete n k c m ∙ if_neg (bytes_discrete n k) (λ e. h (sym e)) _ _

pub memory_laws : IsBlockStore memory
memory_laws = record {
  seen = view;
  start = λ t. view t.0;
  now = λ t. view t.1;
  transaction_start = λ s. refl;
  transaction_now = λ s. refl;
  rollback_seen = λ t. refl;
  commit_ok = λ t h. refl;
  commit_err = λ t e h. absurd (cc h);
  temp_pin_works = λ t. (refl, refl);
  extend_works = λ p c t. (refl, λ a h. (refl, tt));
  get_block_cids_works = λ t. (refl, λ a h. (refl, tt));
  has_block_works = λ c t. (refl, λ a h. (refl, ground (arith, h)));
  get_block_works = λ c t. (refl, λ a h. (refl, ground (arith, h)));
  put_block_works = λ b t. (
    refl,
    λ a h. (λ c. ground (arith, lookup-insert ℕ_discrete b.cid c b.data_ t.1.blocks), refl),
  );
  resolve_works = λ n t. (refl, λ a h. (refl, ground (arith, h)));
  alias_works =
      λ n c t. (refl, λ a h. (refl, renamed_same n c t.1.names, renamed_other n c t.1.names));
  aliases_works = λ t. (refl, λ a h. (refl, tt));
  reverse_alias_works = λ c t. (refl, λ a h. (refl, tt));
  missing_works = λ c t. (
    refl,
    λ a h. (
      refl,
      subst (All (λ e. lookup ℕ_discrete e t.1.blocks ≡ none)) (cc h)
          (absent t.1.blocks c (lookup ℕ_discrete c t.1.blocks) refl),
    ),
  );
}

abbrev pub cat : Block
cat = record { cid = 7; data_ = 1 ∷ 2 ∷ [] }

abbrev dog : Block
dog = record { cid = 8; data_ = 3 ∷ [] }

abbrev pub serving : List (Cid × Bytes) → Storage Disk
serving blocks = record {
  store = record { blocks = blocks; names = [] };
  queries_total = [];
  query_duration = [];
  gc_min_blocks = 1;
  gc_target_duration = 1;
}

pub held_block :
    (m : List (Cid × Bytes)) (c : Cid)
    → (held memory memory_laws (serving m)).block c ≡ lookup ℕ_discrete c m
unfolding memory_laws
held_block m c = refl

service-IsStorage_example : IsStorage memory memory_laws
service-IsStorage_example = service-IsStorage memory memory_laws

still_there :
    (m : List (Cid × Bytes)) (c : Cid) (d : Bytes)
    → lookup ℕ_discrete c (dropped m).1 ≡ some d
    → lookup ℕ_discrete c m ≡ some d
unfolding lookup
still_there [] c d h = h
still_there ((k, e) ∷ m) c d h = ground (arith, h, lookup-remove ℕ_discrete k c m)

pub gathers : Collects memory memory_laws
unfolding memory_laws
gathers least longest s c d h = still_there s.blocks c d h

-- Block 7 is there, 8 is inserted, the collector runs, and 8 is still there.
get-Among_example :
    Among 8 (3 ∷ []) (dog ∷ [])
    ⊎ ((held memory memory_laws (serving ((7, []) ∷ []))).block 8 ≡ some (3 ∷ []))
unfolding get Service.insert gc_task_round Service.rw ipfs_embed.Storage.Batch.get lookup
    ipfs_embed.Storage.Batch.insert insert ℕ_discrete remove
get-Among_example =
    get-Among memory memory_laws gathers {s = serving ((7, []) ∷ [])} {c = 8} {d = 3 ∷ []}
      (quiet (grown nothing (inserted dog)) collected) refl
