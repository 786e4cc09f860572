-- ===== src/Channel.antt =====
-- The sending half of a channel of the `futures` crate, as the program sees it: the receiver is
-- there or was dropped, and what was sent stands in the queue, oldest first.
use ipfs_embed.Prelude.{
  Bool, true, List, [], ◌∷◌, ◌++◌, if◌then◌else◌, ◌≡◌, arith, map, retain, refl,
}

pub record Channel {ℓ} (A : Type ℓ) : Type ℓ where
  pub open_ : Bool
  pub queue : List A

module _ {ℓ} {A : Type ℓ} where
  -- `mpsc::unbounded()`
  abbrev pub unbounded : Channel A
  unbounded = record { open_ = true; queue = [] }

  -- `unbounded_send`: the channel afterwards; whether it went out is `open_`
  abbrev pub send : A → Channel A → Channel A
  send a c = if c.open_ then record c { queue = c.queue ++ a ∷ [] } else c

  -- `senders.retain(|tx| tx.unbounded_send(event.clone()).is_ok())`
  unfoldable pub broadcast : A → List (Channel A) → List (Channel A)
  broadcast a [] = []
  broadcast a (c ∷ cs) = let rest = broadcast a cs in if c.open_ then send a c ∷ rest else rest

  -- Those whose receiver is still there get the event last in their queue, in the same order;
  -- the others are dropped.
  pub broadcast_lem :
      (a : A) (cs : List (Channel A))
      → broadcast a cs
        ≡ map {A = Channel A}
            (λ c. record c { queue = c.queue ++ a ∷ [] })
            (retain (λ c. c.open_) cs)
  unfolding broadcast retain
  broadcast_lem a [] = refl
  broadcast_lem a (c ∷ cs) = ground (arith, broadcast_lem a cs)
