-- ===== src/Storage/Refinement.antt =====
-- src/db.rs: the service's operations implement the specification.
use ipfs_embed.Prelude.{ℕ, List, [], ◌∷◌, String, ◌≡◌, refl, sym, ap, ◌∙◌, subst, Option}
use ipfs_embed.Result.{Result, if_ok-cases, ok, err}
use ipfs_embed.Network.State.{Cid, Bytes}
use ipfs_embed.Storage.State.{Action, BlockStore, Block, Storage}
use ipfs_embed.Storage.Spec.{
  View, Spec, Reads, Anything, Get, Contains, Resolve, Missing, Insert, Alias, Refines, Works,
  unpinned, IsBlockStore,
}
use ipfs_embed.Storage.Batch
use ipfs_embed.Storage.Service

module _ {S T P : Type 0} (db : BlockStore S T P) (laws : IsBlockStore db) where
  abbrev pub held : Storage S → View
  held s = laws.seen s.store

  committed_lem :
      {R : Type 0} (r : R) (t : T) (c : Result (Unit {0}) × S)
      → db.commit t ≡ c
      → ((a : R)
          → (Service.committed db r c).0 ≡ ok a
          → (r ≡ a) × (laws.seen (Service.committed db r c).1 ≡ laws.now t))
        × ((e : ℕ)
            → (Service.committed db r c).0 ≡ err e
            → laws.seen (Service.committed db r c).1 ≡ laws.start t)
  unfolding Service.committed
  committed_lem r t (ok _, s) h = (
    λ a same. (cc same, ap laws.seen (ap (λ c. c.1) (sym h)) ∙ laws.commit_ok t (ap (λ c. c.0) h)),
    λ e bad. absurd (cc bad),
  )
  committed_lem r t (err e, s) h = (
    λ a bad. absurd (cc bad),
    λ d same. ap laws.seen (ap (λ c. c.1) (sym h)) ∙ laws.commit_err t e (ap (λ c. c.0) h),
  )

  finish_lem :
      {R : Type 0} (res : Result R) (t : T)
      → ((a : R)
          → (Service.finish db res t).0 ≡ ok a
          → (res ≡ ok a) × (laws.seen (Service.finish db res t).1 ≡ laws.now t))
        × ((e : ℕ)
            → (Service.finish db res t).0 ≡ err e
            → laws.seen (Service.finish db res t).1 ≡ laws.start t)
  unfolding Service.finish Service.committed
  finish_lem (ok r) t =
      let (good, bad) = committed_lem r t (db.commit t) refl in
      (λ a h. let (same, v) = good a h in (ap ok same, v), bad)
  finish_lem (err e) t = (λ a bad. absurd (cc bad), λ d same. laws.rollback_seen t)

  pub rw_with-Refines :
      {R E : Type 0} (op : String) (f : T → (Result R × E) × T) (spec : Spec R)
      → Works laws.start laws.now (unpinned f) spec
      → Refines held (unpinned (Service.rw_with db op f)) spec
  unfolding Service.rw_with
  rw_with-Refines op f spec works s =
      let t = db.transaction s.store in
      let (kept, done) = works t in
      let (good, bad) = finish_lem (f t).0.0 (f t).1 in
      (
        λ a h.
            let (same, v) = good a h in
            subst (λ w. spec (held s) a w) (sym v)
              (subst (λ w. spec w a (laws.now (f t).1)) (laws.transaction_now s.store)
                (done a same)),
        λ e h. bad e h ∙ kept ∙ laws.transaction_start s.store,
      )

  pub rw-Refines :
      {R : Type 0} (op : String) (f : Action T R) (spec : Spec R)
      → Works laws.start laws.now f spec
      → Refines held (Service.rw db op f) spec
  unfolding Service.rw
  rw-Refines op f spec works =
      rw_with-Refines op (λ t. let (r, t') = f t in ((r, tt), t')) spec works

  -- Pinning links one after the other, up to the first failure.
  pub temp_pin-Works :
      (temp : P) (links : List Cid)
      → Works laws.start laws.now (unpinned (Batch.temp_pin db temp links)) (Reads Anything)
  unfolding Batch.temp_pin
  temp_pin-Works temp [] t = (refl, λ a h. (refl, tt))
  temp_pin-Works temp (link ∷ rest) t =
      let (kept, done) = laws.extend_works temp link t in
      if_ok-cases {X = (Result (Unit {0}) × P) × T}
        (λ x.
          (laws.start x.1 ≡ laws.start t)
          × ((a : Unit {0}) → x.0.0 ≡ ok a → (laws.now x.1 ≡ laws.now t) × Unit {0}))
        (db.extend_temp_pin temp link t).0.0
        (λ u r.
          let (kept', done') =
            temp_pin-Works (db.extend_temp_pin temp link t).0.1 rest
              (db.extend_temp_pin temp link t).1 in
          (kept' ∙ kept, λ a h. ((done' a h).0 ∙ (done u r).0, tt)))
        (λ e r. (kept, λ a bad. absurd (cc bad)))

  pub record IsStorage : Type 0 where
    pub create_temp_pin_refines : Refines held (Service.create_temp_pin db) (Reads Anything)
    pub temp_pin_refines :
        (temp : P) (links : List Cid)
        → Refines held (unpinned (Service.temp_pin db temp links)) (Reads Anything)
    pub iter_refines : Refines held (Service.iter db) (Reads Anything)
    pub contains_refines : (cid : Cid) → Refines held (Service.contains db cid) (Contains cid)
    pub get_refines : (cid : Cid) → Refines held (Service.get db cid) (Get cid)
    pub insert_refines : (block : Block) → Refines held (Service.insert db block) (Insert block)
    pub alias_refines :
        (name : Bytes) (cid : Option Cid)
        → Refines held (Service.alias db name cid) (Alias name cid)
    pub aliases_refines : Refines held (Service.aliases db) (Reads Anything)
    pub resolve_refines : (name : Bytes) → Refines held (Service.resolve db name) (Resolve name)
    pub reverse_alias_refines :
        (cid : Cid) → Refines held (Service.reverse_alias db cid) (Reads Anything)
    pub missing_refines : (cid : Cid) → Refines held (Service.missing_blocks db cid) (Missing cid)

  created : Works laws.start laws.now (Batch.create_temp_pin db) (Reads Anything)
  unfolding Batch.create_temp_pin
  created t = let (kept, done) = laws.temp_pin_works t in (kept, λ a h. (done, tt))

  -- Over a block store with the documented transactions, every operation of the service does what
  -- its specification says, or fails and leaves the blocks and the names that are held as they were.
  pub service-IsStorage : IsStorage
  unfolding Service.create_temp_pin Service.temp_pin Service.iter Service.contains Service.get
      Service.insert Service.alias Service.aliases Service.resolve Service.reverse_alias
      Service.missing_blocks Batch.iter Batch.contains Batch.get Batch.insert Batch.alias
      Batch.aliases Batch.resolve Batch.reverse_alias Batch.missing_blocks
  service-IsStorage = record {
    create_temp_pin_refines = rw-Refines _ _ (Reads Anything) created;
    temp_pin_refines = λ p links. rw_with-Refines _ _ (Reads Anything) (temp_pin-Works p links);
    iter_refines = rw-Refines _ _ (Reads Anything) laws.get_block_cids_works;
    contains_refines = λ c. rw-Refines _ _ (Contains c) (laws.has_block_works c);
    get_refines = λ c. rw-Refines _ _ (Get c) (laws.get_block_works c);
    insert_refines = λ b. rw-Refines _ _ (Insert b) (laws.put_block_works b);
    alias_refines = λ n c. rw-Refines _ _ (Alias n c) (laws.alias_works n c);
    aliases_refines = rw-Refines _ _ (Reads Anything) laws.aliases_works;
    resolve_refines = λ n. rw-Refines _ _ (Resolve n) (laws.resolve_works n);
    reverse_alias_refines = λ c. rw-Refines _ _ (Reads Anything) (laws.reverse_alias_works c);
    missing_refines = λ c. rw-Refines _ _ (Missing c) (laws.missing_works c);
  }
