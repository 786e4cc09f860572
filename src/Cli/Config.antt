-- ===== src/Cli/Config.antt =====
-- cli/src/lib.rs: the options of the program, and the arguments that carry them to a new process.
use ipfs_embed.Prelude.{
  ℕ, List, [], ◌∷◌, ◌++◌, Bool, false, Option, none, some, if◌then◌else◌, zero, suc, ◌/◌, ◌%◌,
}
use ipfs_embed.Multiaddr.{Multiaddr}
use ipfs_embed.Cli.Words.{Text, codes}

pub record Config : Type 0 where
  pub path : Option Text
  pub node_name : Option Text
  pub keypair : ℕ
  pub enable_mdns : Bool
  pub listen_on : List Multiaddr
  pub bootstrap : List Multiaddr
  pub external : List Multiaddr
  pub disable_port_reuse : Bool

-- `parse` is the reading of an address, which is unwrapped: `none` is a panic
with_listen_on : ℕ → Option Multiaddr → Option Config
with_listen_on keypair none = none
with_listen_on keypair (some addr) = some record {
  path = none;
  node_name = none;
  keypair = keypair;
  enable_mdns = false;
  listen_on = addr ∷ [];
  bootstrap = [];
  external = [];
  disable_port_reuse = false;
}

unfoldable pub new : (Text → Option Multiaddr) → ℕ → Option Config
unfolding with_listen_on
new parse keypair = with_listen_on keypair (parse (codes "/ip4/0.0.0.0/tcp/30000"))

option_arg : Text → Option Text → List Text
option_arg flag none = []
option_arg flag (some value) = flag ∷ value ∷ []

addr_args : Text → (Multiaddr → Text) → List Multiaddr → List Text
addr_args flag print [] = []
addr_args flag print (addr ∷ rest) = flag ∷ print addr ∷ addr_args flag print rest

flag_arg : Text → Bool → List Text
flag_arg flag set = if set then flag ∷ [] else []

-- The arguments of the process, with the texts of numbers and addresses as `Display` gives them.
unfoldable pub args : (ℕ → Text) → (Multiaddr → Text) → Config → List Text
unfolding option_arg addr_args flag_arg
args number print config =
    option_arg (codes "--path") config.path
    ++ (option_arg (codes "--node-name") config.node_name
        ++ (codes "--keypair"
            ∷ number config.keypair
            ∷ (addr_args (codes "--listen-on") print config.listen_on
                ++ (addr_args (codes "--bootstrap") print config.bootstrap
                    ++ (addr_args (codes "--external") print config.external
                        ++ (flag_arg (codes "--enable-mdns") config.enable_mdns
                            ++ flag_arg (codes "--disable-port-reuse")
                                config.disable_port_reuse))))))

-- The secret of a node's key: its number in the first eight bytes, the highest first.
unfoldable pub be_bytes : ℕ → ℕ → List ℕ
be_bytes zero i = []
be_bytes (suc n) i = be_bytes n (i / 256) ++ i % 256 ∷ []

unfoldable pub zeros : ℕ → List ℕ
zeros zero = []
zeros (suc n) = 0 ∷ zeros n

unfoldable pub secret : ℕ → List ℕ
unfolding be_bytes zeros
secret i = be_bytes 8 i ++ zeros 24
