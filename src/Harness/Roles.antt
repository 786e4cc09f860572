-- ===== src/Harness/Roles.antt =====
-- harness/src/lib.rs: the roles of the nodes.
use ipfs_embed.Prelude.{
  Bool, ◌++◌, ℕ, zero, suc, List, [], ◌∷◌, ◌+◌, ◌-◌, ◌≤◌, ◌<◌, ltb, leb, ◌&&◌, if◌then◌else◌,
  Option, none, some, length, take, map, ◌≡◌, ◌↔◌, arith,
}
use ipfs_embed.Cli.Words.{Text, codes}
use ipfs_embed.Cli.Config.{Config}
use ipfs_embed.Multiaddr.{Multiaddr, PeerId, PeerIds, p2p}

-- The options that say how many nodes there are.
pub record HarnessOpts : Type 0 where
  pub n_nodes : ℕ
  pub n_providers : ℕ
  pub n_consumers : ℕ

pub data Role : Type 0 where
  provider : Role
  consumer : Role
  idle : Role

-- The start and the end of the range of a role.
unfoldable pub range : HarnessOpts → Role → ℕ × ℕ
range opts provider = (0, opts.n_providers)
range opts consumer = (opts.n_providers, opts.n_providers + opts.n_consumers)
range opts idle = (opts.n_providers + opts.n_consumers, opts.n_nodes)

-- The name that `run_netsim` gives to a node: its role, and its number within the role.
unfoldable pub name : HarnessOpts → ℕ → Role × ℕ
name opts i =
    if ltb i opts.n_providers
    then (provider, i)
    else if ltb i (opts.n_providers + opts.n_consumers)
    then (consumer, i - opts.n_providers)
    else (idle, i - opts.n_providers - opts.n_consumers)

name_text : (ℕ → Text) → Role × ℕ → Text
name_text number (provider, i) = codes "provider" ++ number i
name_text number (consumer, i) = codes "consumer" ++ number i
name_text number (idle, i) = codes "idle" ++ number i

-- The options of the process of a node: its name as a text, and a directory of its own. `in_dir`
-- joins the number of the node to the temporary directory.
unfoldable pub node_config :
    HarnessOpts → Bool → Bool → (ℕ → Text) → (ℕ → Text) → Multiaddr → ℕ → Config
unfolding name_text
node_config opts enable_mdns disable_port_reuse number in_dir listen i = record {
  path = some (in_dir i);
  node_name = some (name_text number (name opts i));
  keypair = i;
  enable_mdns = enable_mdns;
  listen_on = listen ∷ [];
  bootstrap = [];
  external = [];
  disable_port_reuse = disable_port_reuse;
}

abbrev pub drop : {A : Type 0} → ℕ → List A → List A
drop zero xs = xs
drop (suc n) [] = []
drop (suc n) (x ∷ xs) = drop n xs

-- `xs[start..end]`, which panics out of range
unfoldable pub slice : {A : Type 0} → ℕ × ℕ → List A → Option (List A)
slice (start, end_) xs =
    if leb start end_ && leb end_ (length xs)
    then some (take (end_ - start) (drop start xs))
    else none

-- A machine of the simulation, with its address.
pub record Machine : Type 0 where
  pub id : ℕ
  pub peer_id : PeerId
  pub multiaddr : Multiaddr

-- An entry of the map of `nodes`.
abbrev pub Entry : Type 0
Entry = ℕ × (PeerId × Multiaddr)

-- the entry of a machine
unfoldable pub node : PeerIds → Machine → Entry
node ids m = (m.id, (m.peer_id, m.multiaddr ++ p2p (ids.to_multihash m.peer_id) ∷ []))

-- The map by the ids of the machines, as the list of its entries: netsim_embed gives each machine an
-- id of its own, so that no entry takes the place of another.
unfoldable pub entries : PeerIds → Option (List Machine) → Option (List Entry)
unfolding node
entries ids none = none
entries ids (some ms) = some (map (node ids) ms)

unfoldable pub nodes : PeerIds → ℕ × ℕ → List Machine → Option (List Entry)
unfolding slice entries
nodes ids r machines = entries ids (slice r machines)

unfoldable pub role : PeerIds → HarnessOpts → Role → List Machine → Option (List Entry)
unfolding nodes range
role ids opts r machines = nodes ids (range opts r) machines

-- If there are enough nodes for the providers and consumers, then a node is named after a role
-- exactly if it stands in the range of the role, and its number counts from the start of the range.
name-range :
    (opts : HarnessOpts) (r : Role) (i : ℕ)
    → opts.n_providers + opts.n_consumers ≤ opts.n_nodes
    → i < opts.n_nodes
    → ((name opts i).0 ≡ r) ↔ (((range opts r).0 ≤ i) × (i < (range opts r).1))
unfolding name range
name-range opts provider i enough h = (λ e. ground (arith, e), λ e. ground (arith, e))
name-range opts consumer i enough h = (λ e. ground (arith, e), λ e. ground (arith, e))
name-range opts idle i enough h = (λ e. ground (arith, e), λ e. ground (arith, e))
