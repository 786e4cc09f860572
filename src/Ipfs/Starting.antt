-- ===== src/Ipfs/Starting.antt =====
-- src/lib.rs: the tasks of a node that starts, or that fails to.
use ipfs_embed.Prelude.{
  ℕ, Bool, false, Option, none, some, is_some, ◌≡◌, ◌≢◌, ◌||◌, ◌==◌, arith, refl, ◌∙◌,
  if◌then◌else◌, ap, subst,
}
use ipfs_embed.Result.{Result, ok, err, if_ok}
use ipfs_embed.Storage.State.{Action, StorageConfig, FilePath}
use ipfs_embed.Storage.Opening.{
  FileSystem, Openers, StorageServiceInner, StoreConfig, open_inner, file_in, open_tracker,
  open_store, gc_connection,
}
use ipfs_embed.Network.Config.{NetworkConfig, Libp2p, DnsConfig, custom, system_with_fallback}
use ipfs_embed.Network.Setup.{
  Builders, NetworkService, SwarmLoop, Transport, new_service, if_some, with_dns, new_behaviour,
  resolved, Backend,
}
use ipfs_embed.Executor.{Features, Executor, Runtime, IsRuntime, JoinHandle, handle}
use ipfs_embed.Executor
use ipfs_embed.Executor.Futures.{Future}
use ipfs_embed.Executor.Effects.{
  Leaves, Ends, Ensures, Starts, >>=-Ensures, >>=-Leaves, pure-Leaves, spawn-Starts,
}
use ipfs_embed.Ipfs.Start.{Config, Node, new0, connected, drop_inner}
use ipfs_embed.Ipfs.Lifetime.{abort_lem}

module _ {W S K D G R : Type 0} (files : FileSystem W) (db : Openers W S K) (libp2p : Libp2p)
    (lib : Builders W D) (rt : Runtime W (Future S (SwarmLoop D)) G R) where
  -- What the other packages do while a node starts is nothing to the tasks of the program.
  pub record AreQuiet : Type 0 where
    pub create_dir_all : (path : FilePath) → Leaves rt (files.create_dir_all path)
    pub sqlite_tracker : (path : FilePath) → Leaves rt (db.sqlite_tracker path)
    pub open_file : (path : FilePath) (c : StoreConfig K) → Leaves rt (db.open_file path c)
    pub memory : (c : StoreConfig K) → Leaves rt (db.memory c)
    pub additional_connection : (s : S) → Leaves rt (db.additional_connection s)
    pub mdns : (c : ℕ) (peer : ℕ) → Leaves rt (lib.mdns c peer)
    pub gossipsub : (key : ℕ) (c : ℕ) → Leaves rt (lib.gossipsub key c)
    pub dns_custom : (t : Transport) (c : ℕ) → Leaves rt (lib.dns_custom t c)
    pub dns_system : (t : Transport) → Leaves rt (lib.dns_system t)
    pub read_system_conf : Leaves rt lib.read_system_conf

  abbrev pub Started : Features → Executor → Config → W → Result (Node S) × W → Type 0
  Started fs ex c w (ok n, w') =
      (gc : ℕ) × (sw : ℕ) × (sw ≢ gc)
      × (rt.lives w gc ≡ false)
      × (rt.lives w sw ≡ false)
      × ((u : ℕ) → rt.lives w' u ≡ (u == gc) || (u == sw) || rt.lives w u)
      × (n.storage.gc_task ≡ some (handle ex gc))
      × (n.network.swarm_task ≡ handle ex sw)
      × (n.network_handles ≡ 1)
      × (n.swarm_holds ≡ is_some c.network.bitswap)
      × (n.storage_handles ≡ (if n.swarm_holds then 2 else 1))
  Started fs ex c w (err e, w') = (u : ℕ) → rt.lives w' u ≡ rt.lives w u

  module _ (quiet : AreQuiet) where
    file_in-Leaves : (name path : FilePath) → Leaves rt (file_in files db rt name path)
    unfolding file_in
    file_in-Leaves name path = record {
      same = λ w. ground (arith, (quiet.create_dir_all path).same w);
    }

    open_tracker-Leaves : (path : Option FilePath) → Leaves rt (open_tracker files db rt path)
    unfolding open_tracker
    open_tracker-Leaves none = pure-Leaves rt _
    open_tracker-Leaves (some path) = >>=-Leaves rt (file_in-Leaves _ path) quiet.sqlite_tracker

    open_store-Leaves :
        (path : Option FilePath) (c : StoreConfig K) → Leaves rt (open_store files db rt path c)
    unfolding open_store
    open_store-Leaves none c = quiet.memory c
    open_store-Leaves (some path) c =
        >>=-Leaves rt (file_in-Leaves _ path) (λ file. quiet.open_file file c)

    gc_connection-Leaves :
        (path : Option FilePath) (s : S) → Leaves rt (gc_connection files db rt path s)
    unfolding gc_connection
    gc_connection-Leaves none s = pure-Leaves rt _
    gc_connection-Leaves (some path) s =
        >>=-Leaves rt (quiet.additional_connection s) (λ gc. pure-Leaves rt _)

    if_some-Leaves :
        {A : Type 0} (c : Option A) (f : A → Action W (Unit {0}))
        → ((a : A) → Leaves rt (f a))
        → Leaves rt (if_some c f)
    if_some-Leaves none f h = pure-Leaves rt _
    if_some-Leaves (some a) f h = h a

    new_behaviour-Leaves : (c : NetworkConfig) → Leaves rt (new_behaviour libp2p lib rt c)
    unfolding new_behaviour
    new_behaviour-Leaves c = >>=-Leaves rt (if_some-Leaves c.mdns _ (λ m. quiet.mdns m _)) (λ _.
        >>=-Leaves rt (if_some-Leaves c.gossipsub _ (quiet.gossipsub c.node_key))
          (λ _. pure-Leaves rt _))

    resolved-Leaves :
        (t : Transport) (c : ℕ) (r : Result ℕ) → Leaves rt (resolved libp2p lib rt t c r)
    unfolding resolved
    resolved-Leaves t c (ok system) = quiet.dns_custom t system
    resolved-Leaves t c (err e) = quiet.dns_custom t c

    with_dns-Leaves :
        (t : Transport) (c : Option DnsConfig) → Leaves rt (with_dns libp2p lib rt t c)
    unfolding with_dns
    with_dns-Leaves t none = record { same = (quiet.dns_system t).same }
    with_dns-Leaves t (some (custom c)) = record { same = (quiet.dns_custom t c).same }
    with_dns-Leaves t (some (system_with_fallback c)) = record {
      same = λ w.
          (resolved-Leaves t c (lib.read_system_conf w).0).same (lib.read_system_conf w).1
          ∙ quiet.read_system_conf.same w;
    }

    -- A storage that opens has started one task, and one that fails none.
    pub open_inner-Ensures :
        IsRuntime rt
        → (c : StorageConfig) (ex : Executor)
        → Ensures rt
            (λ inner before after.
              (h : JoinHandle) × (inner.gc_task ≡ some h) × Starts rt h ex before after)
            (open_inner files db rt c ex)
    unfolding open_inner
    open_inner-Ensures laws c ex = >>=-Ensures rt (open_tracker-Leaves c.access_db_path) (λ tracker.
        >>=-Ensures rt (open_store-Leaves c.path _) (λ store.
          >>=-Ensures rt (gc_connection-Leaves c.path store)
            (λ gc. record { ends = λ w. (_, refl, spawn-Starts rt laws ex _ w) })))

    -- The same of the network.
    pub new_service-Ensures :
        IsRuntime rt
        → (c : NetworkConfig) (ex : Executor)
        → Ensures rt
            (λ s before after. Starts rt s.swarm_task ex before after)
            (new_service libp2p lib rt c ex)
    unfolding new_service
    new_service-Ensures laws c ex =
        >>=-Ensures rt (new_behaviour-Leaves c) (λ (p : Backend × NetworkConfig).
          >>=-Ensures rt (with_dns-Leaves _ _)
            (λ transport. record { ends = λ w. spawn-Starts rt laws ex _ w }))

    module _ (laws : IsRuntime rt) (fs : Features) (ex : Executor)
        (chosen : Executor.new fs ≡ some ex) (c : Config) (w : W) where
      connected_lem :
          (storage : StorageServiceInner S) (gc : ℕ) (before : ℕ → Bool)
          → storage.gc_task ≡ some (handle ex gc)
          → rt.lives w gc ≡ false
          → ((u : ℕ) → before u ≡ (u == gc) || rt.lives w u)
          → (x : Result NetworkService × W)
          → Ends rt (λ s b after. Starts rt s.swarm_task ex b after) before x
          → Started fs ex c w (connected files db libp2p lib rt fs c.network storage x)
      unfolding connected drop_inner
      connected_lem storage gc before h fresh grown (ok network, w') (sw, same, new, now) = (
        gc,
        sw,
        λ e. ground (arith, e, new, grown gc, subst (λ t. before t ≡ false) e new),
        fresh,
        ground (arith, new, grown sw),
        λ u. ground (arith, now u, grown u),
        h,
        same,
        refl,
        refl,
        refl,
      )
      connected_lem storage gc before h fresh grown (err e, w') same = λ u.
          let left : rt.lives w' u ≡ before u = ap (λ l. l u) same in
          rw h (ground (arith, abort_lem rt laws fs ex chosen gc w' u, left, grown u, fresh))

      new0_lem :
          (x : Result (StorageServiceInner S) × W)
          → Ends rt
              (λ inner before after.
                (h : JoinHandle) × (inner.gc_task ≡ some h) × Starts rt h ex before after)
              (rt.lives w)
              x
          → Started fs ex c w (
              if_ok x.0
                (λ storage.
                  connected files db libp2p lib rt fs c.network storage
                    (new_service libp2p lib rt c.network ex x.1))
                (λ e. (err e, x.1)))
      new0_lem (ok storage, w') (h, task, (gc, same, new, now)) =
          connected_lem storage gc (rt.lives w') (task ∙ ap some same) new now
            (new_service libp2p lib rt c.network ex w')
            ((new_service-Ensures laws c.network ex).ends w')
      new0_lem (err e, w') same = λ u. ap (λ l. l u) same

      -- Where the task libraries are as documented, the other packages leave the tasks of the
      -- program alone, and the executor is the one of the build: a node that starts has two new
      -- tasks and no third, its collector's and its swarm's, and the handles of them; when a start
      -- fails, every task that it has started has been told to stop, and the other tasks go on as
      -- they did.
      pub new0-Started : Started fs ex c w (new0 files db libp2p lib rt fs c ex w)
      unfolding new0
      new0-Started =
          new0_lem (open_inner files db rt c.storage ex w)
            ((open_inner-Ensures laws c.storage ex).ends w)
