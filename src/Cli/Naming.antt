-- ===== src/Cli/Naming.antt =====
-- cli/src/main.rs: the name of the node that the program starts.
use mathlib.Core.Option
use ipfs_embed.Prelude.{ℕ, List, Option, some, ◌≡◌, refl}
use ipfs_embed.Network.Config.{Libp2p, NetworkConfig}
use ipfs_embed.Network.Config as Options
use ipfs_embed.Network.Setup.{Builders, SwarmLoop, backend, new_service}
use ipfs_embed.Storage.Opening.{FileSystem, Openers}
use ipfs_embed.Executor.{Features, Executor, Runtime}
use ipfs_embed.Executor.Futures.{Future}
use ipfs_embed.Ipfs.Start.{new0}
use ipfs_embed.Cli.Words.{Text}
use ipfs_embed.Cli.Config.{Config}
use ipfs_embed.Cli.Start.{config_of}

module _ {W S K D G R : Type 0} (files : FileSystem W) (db : Openers W S K) (libp2p : Libp2p)
    (lib : Builders W D) (rt : Runtime W (Future S (SwarmLoop D)) G R) (fs : Features)
    (key_of : List ℕ → ℕ) (number : ℕ → Text) (generated : Text) (generated_key : ℕ) where
  abbrev started_with : Config → NetworkConfig
  started_with config = (config_of libp2p key_of number generated generated_key config).network

  -- Whatever name is given to the program, peers are told the name that was generated for the
  -- default configuration, and the node that starts is the same one: the option has no effect.
  pub new0-node_name :
      (config : Config) (name : Option Text) (ex : Executor) (w : W)
      → (Option.map
            (λ identify. identify.agent_version)
            (backend libp2p (started_with (record config { node_name = name }))).identify
          ≡ some generated)
        × (new0 files db libp2p lib rt fs
              (config_of libp2p key_of number generated generated_key
                (record config { node_name = name }))
              ex
              w
            ≡ new0 files db libp2p lib rt fs
                (config_of libp2p key_of number generated generated_key config)
                ex
                w)
  unfolding new0 new_service config_of Options.new backend
  new0-node_name config name ex w = (refl, refl)
