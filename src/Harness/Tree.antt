-- ===== src/Harness/Tree.antt =====
-- harness/src/lib.rs, and src/test_util.rs, which has the same functions: the tree of blocks that the
-- tests exchange.
use ipfs_embed.Prelude.{ℕ, zero, suc, List, [], ◌∷◌, ◌++◌, length}
use ipfs_embed.Result.{Result, ok, err, if_ok}
use ipfs_embed.Network.State.{Cid}

-- `Node`, encoded as a block; its payload is random
pub record TreeBlock : Type 0 where
  pub cid : Cid
  pub links : List Cid
  pub depth : ℕ

abbrev pub Built : Type 0
Built = Result (Cid × List TreeBlock)

-- `build_tree_0(width, depth - 1, blocks)` for each of the children, up to an error
unfoldable pub children :
    ℕ → (List TreeBlock → Built) → List TreeBlock → Result (List Cid × List TreeBlock)
children zero child blocks = ok ([], blocks)
children (suc n) child blocks =
    if_ok (child blocks) (λ r. if_ok (children n child r.1) (λ rest. ok (r.0 ∷ rest.0, rest.1)) err)
      err

-- `create_block` is libipld's encoding of a node with a random payload: after so many blocks, with
-- these links and depth.
module _ (create_block : ℕ → List Cid → ℕ → Result Cid) where
  unfoldable pub pushed : List Cid → ℕ → List TreeBlock → Built
  pushed links depth blocks =
      if_ok (create_block (length blocks) links depth)
        (λ cid. ok (cid, blocks ++ record { cid = cid; links = links; depth = depth } ∷ [])) err

  unfoldable pub build_tree_0 : ℕ → ℕ → List TreeBlock → Built
  unfolding children pushed
  build_tree_0 width zero blocks = pushed [] 0 blocks
  build_tree_0 width (suc depth) blocks =
      if_ok (children width (build_tree_0 width depth) blocks) (λ r. pushed r.0 (suc depth) r.1) err

  unfoldable pub build_tree : ℕ → ℕ → Built
  unfolding build_tree_0
  build_tree width depth = build_tree_0 width depth []
