-- ===== src/Examples/HarnessAt.antt =====
-- The theorems on the test harness, at three nodes and a tree of seven blocks.
use ipfs_embed.Prelude.{[], ◌∷◌, ◌++◌, some, map, arith}
use ipfs_embed.Multiaddr.{ip4, tcp}
use ipfs_embed.Examples.Constants.{ids}
use ipfs_embed.Harness.Roles.{Machine, Entry, provider, consumer, idle, role, node}
use ipfs_embed.Harness.Partition.{role-partition}
use ipfs_embed.Prelude.{ℕ, List, ◌≡◌, refl, true, length}
use ipfs_embed.Result.{Result, ok}
use ipfs_embed.Network.State.{Cid}
use ipfs_embed.Harness.Roles.{HarnessOpts}
use ipfs_embed.Harness.Tree.{TreeBlock, build_tree}
use ipfs_embed.Harness.Closed.{IsClosed, held, tree_size, build_tree_lem}

abbrev three_nodes : HarnessOpts
three_nodes = record { n_nodes = 3; n_providers = 1; n_consumers = 1 }

-- The blocks are numbered in the order in which they are made.
abbrev numbered : ℕ → List Cid → ℕ → Result Cid
numbered n links depth = ok n

build_tree_lem_example :
    (root : Cid) × (blocks : List TreeBlock) × (build_tree numbered 2 2 ≡ ok (root, blocks))
    × IsClosed blocks
    × (held root blocks ≡ true)
    × (length blocks ≡ tree_size 2 2)
build_tree_lem_example = build_tree_lem numbered (λ n links depth. (n, refl)) 2 2

-- Three machines in one network.
abbrev machines : List Machine
machines =
    record { id = 0; peer_id = 1; multiaddr = ip4 167772161 ∷ tcp 30000 ∷ [] }
    ∷ record { id = 1; peer_id = 2; multiaddr = ip4 167772162 ∷ tcp 30000 ∷ [] }
    ∷ record { id = 2; peer_id = 3; multiaddr = ip4 167772163 ∷ tcp 30000 ∷ [] }
    ∷ []

role-partition_example :
    (ps : List Entry) × (cs : List Entry) × (others : List Entry) × (role ids three_nodes provider
        machines
      ≡ some ps)
    × (role ids three_nodes consumer machines ≡ some cs)
    × (role ids three_nodes idle machines ≡ some others)
    × (ps ++ (cs ++ others) ≡ map (node ids) machines)
    × (length ps ≡ 1)
    × (length cs ≡ 1)
role-partition_example = role-partition ids three_nodes machines (omega arith) refl
