-- ===== src/Examples/NodeAt.antt =====
-- A runtime that counts its tasks, and the theorems on the start and the end of a node at it.
use ipfs_embed.Prelude.{
  ℕ, ◌+◌, ◌<◌, [], ◌∷◌, ◌++◌, Bool, true, false, ◌&&◌, some, none, is_some, ◌≡◌, refl, ◌==◌, ltb,
  not, ◌||◌, if◌then◌else◌, arith,
}
use ipfs_embed.Result.{ok, err}
use ipfs_embed.Storage.State.{◌>>=◌, new_config}
use ipfs_embed.Storage.Opening.{FileSystem, Openers, open_inner}
use ipfs_embed.Network.Config.{Libp2p}
use ipfs_embed.Network.Config as Options
use ipfs_embed.Network.Setup.{Builders, SwarmLoop, backend, new_service}
use ipfs_embed.Executor.{Features, Executor, Runtime, IsRuntime, handle, spawn, detach}
use ipfs_embed.Executor
use ipfs_embed.Executor.Futures.{Future}
use ipfs_embed.Cli.Config as Args
use ipfs_embed.Cli.Start.{config_of}
use ipfs_embed.Cli.Naming.{new0-node_name}
use ipfs_embed.Variable.{new, reader, project}
use ipfs_embed.Variable.Histories.{written, folded, project-new}
use mathlib.Core.Option
use ipfs_embed.Ipfs.Start.{Config, Node, new0, drop, clone}
use ipfs_embed.Ipfs.Starting.{AreQuiet, Started, new0-Started}
use ipfs_embed.Ipfs.Lifetime.{is_tokio}
use ipfs_embed.Ipfs.Stopping.{started, cloned, dropped, Reach-lives}

-- Tasks are numbered as they are spawned.
pub record World : Type 0 where
  pub next : ℕ
  pub live : ℕ → Bool

abbrev born : World → ℕ × World
born w = (w.next, record { next = w.next + 1; live = λ u. if u == w.next then true else w.live u })

abbrev ended : ℕ → World → World
ended t w = record w { live = λ u. if u == t then false else w.live u }

abbrev pub counting : Runtime World (Future ℕ (SwarmLoop ℕ)) (Future ℕ (SwarmLoop ℕ)) ℕ
counting = record {
  lives = λ w u. ltb u w.next && w.live u;
  spawn = λ f w. born w;
  blocking = λ f w. (f, w);
  detach = λ t w. w;
  cancel = ended;
  poll = λ t w. (none, w);
  tokio_spawn = λ f w. born w;
  tokio_spawn_blocking = λ f w. born w;
  tokio_abort = ended;
  tokio_drop = λ t w. w;
  tokio_poll = λ t w. (none, w);
}

born_new : (w : World) → counting.lives w w.next ≡ false
born_new w = ground arith

born_lives :
    (w : World) (u : ℕ)
    → counting.lives (born w).1 u ≡ (if u == w.next then true else counting.lives w u)
born_lives w u = ground arith

ended_lives :
    (t : ℕ) (w : World) (u : ℕ)
    → counting.lives (ended t w) u ≡ (if u == t then false else counting.lives w u)
ended_lives t w u = ground arith

pub counting_laws : IsRuntime counting
counting_laws = record {
  spawn_new = λ f w. born_new w;
  spawn_lives = λ f w u. born_lives w u;
  detach_lives = λ t w u. refl;
  cancel_lives = ended_lives;
  tokio_spawn_new = λ f w. born_new w;
  tokio_spawn_lives = λ f w u. born_lives w u;
  tokio_abort_lives = ended_lives;
  tokio_drop_lives = λ t w u. refl;
}

abbrev pub files : FileSystem World
files = record {
  is_file = λ path w. false;
  create_dir_all = λ path w. (ok tt, w);
  join = λ path name. path ++ name;
}

abbrev pub stores : Openers World ℕ ℕ
stores = record {
  sqlite_tracker = λ path w. (ok 1, w);
  in_mem_tracker = 0;
  open_file = λ path config w. (ok 1, w);
  memory = λ config w. (ok 0, w);
  additional_connection = λ s w. (ok (s + 1), w);
}

abbrev pub libp2p : Libp2p
libp2p = record {
  public_key = λ key. key + 100;
  peer_id = λ key. key;
  agent_version = 1 ∷ [];
  mdns = 0;
  kad = 0;
  gossipsub = 0;
  broadcast = 0;
  bitswap = 0;
}

-- Name servers that are found, or are not.
abbrev pub builders : Bool → Builders World ℕ
builders found = record {
  mdns = λ config peer w. (ok tt, w);
  gossipsub = λ key config w. (ok tt, w);
  dns_custom = λ t config w. (ok 1, w);
  dns_system = λ t w. (if found then ok 0 else err 9, w);
  read_system_conf = λ w. (ok 0, w);
}

pub all_quiet : (found : Bool) → AreQuiet files stores libp2p (builders found) counting
all_quiet found = record {
  create_dir_all = λ path. record { same = λ w. refl };
  sqlite_tracker = λ path. record { same = λ w. refl };
  open_file = λ path config. record { same = λ w. refl };
  memory = λ config. record { same = λ w. refl };
  additional_connection = λ s. record { same = λ w. refl };
  mdns = λ config peer. record { same = λ w. refl };
  gossipsub = λ key config. record { same = λ w. refl };
  dns_custom = λ t config. record { same = λ w. refl };
  dns_system = λ t. record { same = λ w. refl };
  read_system_conf = record { same = λ w. refl };
}

abbrev pub default_build : Features
default_build = record { tokio = false; async_global = true }

abbrev pub tokio_build : Features
tokio_build = record { tokio = true; async_global = false }

abbrev pub config : Config
config = record {
  storage = new_config (some (5 ∷ [])) none 10 10000000000;
  network = Options.new libp2p (2 ∷ []) 7;
}

abbrev pub empty_world : World
empty_world = record { next = 0; live = λ u. false }

chosen_default : Executor.new default_build ≡ some Executor.async_global
unfolding Executor.new
chosen_default = refl

chosen_tokio : Executor.new tokio_build ≡ some Executor.tokio
unfolding Executor.new
chosen_tokio = refl

-- No name server is found, so the collector that was already started is stopped.
new0-Started_example :
    Started files stores libp2p
      (builders false)
      counting
      default_build
      Executor.async_global
      config
      empty_world
      (new0 files stores libp2p
        (builders false)
        counting
        default_build
        config
        Executor.async_global
        empty_world)
new0-Started_example =
    new0-Started files stores libp2p (builders false) counting (all_quiet false) counting_laws
      default_build Executor.async_global chosen_default config empty_world

abbrev both_tasks : World
both_tasks = (born (born empty_world).1).1

abbrev the_node : Executor → Node ℕ
the_node ex = record {
  storage = record {
    executor = ex;
    storage = record {
      store = 1;
      queries_total = [];
      query_duration = [];
      gc_min_blocks = config.storage.gc_min_blocks;
      gc_target_duration = config.storage.gc_target_duration;
    };
    gc_task = some (handle ex 0);
  };
  storage_handles = 2;
  network = record {
    public_key = 107;
    peer_id = 7;
    node_name = 2 ∷ [];
    cmd = record { disconnected = false; full = false; waiting = [] };
    swarm_task = handle ex 1;
  };
  network_handles = 1;
  swarm_holds = true;
}

starts :
    new0 files stores libp2p
      (builders true)
      counting
      default_build
      config
      Executor.async_global
      empty_world
    ≡ (ok (the_node Executor.async_global), both_tasks)
unfolding new0 open_inner new_service Options.new new_config ◌>>=◌
starts = refl

some_handle : 0 < (clone (the_node Executor.async_global)).network_handles
unfolding clone
some_handle = omega arith

more_handles :
    let (n, w) = drop counting default_build (clone (the_node Executor.async_global)) both_tasks in
    0 < n.network_handles
unfolding drop clone
more_handles = omega arith

-- A node is cloned, both handles are dropped, and neither task is left.
Reach-lives_example :
    let n1 = clone (the_node Executor.async_global) in
    let (n2, w2) = drop counting default_build n1 both_tasks in
    let (n3, w3) = drop counting default_build n2 w2 in
    (counting.lives w3 1 ≡ is_tokio Executor.async_global || not (n3.network_handles == 0))
    × (counting.lives w3 0
        ≡ (is_tokio Executor.async_global && is_some config.network.bitswap)
          || not (n3.network_handles == 0))
Reach-lives_example =
    Reach-lives files stores libp2p (builders true) counting default_build Executor.async_global
      config 0 1 (all_quiet true) counting_laws chosen_default
      (dropped (dropped (cloned (started empty_world starts refl refl) (omega arith)) some_handle)
        more_handles)

abbrev options : Args.Config
options = record {
  path = none;
  node_name = none;
  keypair = 7;
  enable_mdns = false;
  listen_on = [];
  bootstrap = [];
  external = [];
  disable_port_reuse = false;
}

-- The program is started under the name 9, and peers are told the generated name 2.
new0-node_name_example :
    let config_at =
      λ (o : Args.Config). config_of libp2p (λ secret. 0) (λ n. n ∷ []) (2 ∷ []) 3 o in
    let named = record options { node_name = some (9 ∷ []) } in
    (Option.map
        (λ identify. identify.agent_version)
        (backend libp2p (config_at named).network).identify
      ≡ some (2 ∷ []))
    × (new0 files stores libp2p
          (builders true)
          counting
          default_build
          (config_at named)
          Executor.async_global
          empty_world
        ≡ new0 files stores libp2p
            (builders true)
            counting
            default_build
            (config_at options)
            Executor.async_global
            empty_world)
new0-node_name_example =
    new0-node_name files stores libp2p (builders true) counting default_build (λ secret. 0)
      (λ n. n ∷ []) (2 ∷ []) 3 options (some (9 ∷ [])) Executor.async_global empty_world

-- A flag and a counter: the counter's writers do not touch the flag.
project-new_example :
    let (w, cells') = new {T = ℕ} 0 (5 ∷ []) in
    project
      (reader w)
      (λ n. n + 1)
      (written ((w, λ n. n + 2) ∷ (record { cell = 0 }, λ n. n + 7) ∷ (w, λ n. n + n) ∷ []) cells')
    ≡ some (
        folded w.cell ((w, λ n. n + 2) ∷ (record { cell = 0 }, λ n. n + 7) ∷ (w, λ n. n + n) ∷ []) 0
        + 1)
unfolding new
project-new_example =
    project-new 0 (λ n. n + 1)
      ((record { cell = 1 }, λ n. n + 2)
        ∷ (record { cell = 0 }, λ n. n + 7)
        ∷ (record { cell = 1 }, λ n. n + n)
        ∷ [])
      (5 ∷ [])
