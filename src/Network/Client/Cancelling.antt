-- ===== src/Network/Client/Cancelling.antt =====
-- src/net/mod.rs: what the drop of a query does, once the loop gets to it.
use ipfs_embed.Prelude.{
  Option-cases, inl, inr, ap, sym, ℕ, if◌then◌else◌, Bool-cases, List, [], ◌∷◌, ◌++◌, false, Option,
  some, none, ◌≡◌, refl, lookup, lookup-remove, arith, if_pos, ◌∙◌,
}
use ipfs_embed.Multiaddr.{PeerIds}
use ipfs_embed.PeerInfo.Failure.{Texts}
use ipfs_embed.AddressBook.State.{Topic}
use ipfs_embed.Network.Queries.{QueryId, QueryId-discrete, bitswap, settle, dropped, Queries}
use ipfs_embed.Network.State.{call, bitswap_cancel}
use ipfs_embed.Network.Requests
use ipfs_embed.Network.Requests.Calls
use ipfs_embed.Network.Service.{Service, NetworkCommand, handle, cancel_query}
use ipfs_embed.Network.Client.{Commands, try_send, drop_get, drop_sync}

module _ (ids : PeerIds) (t : Texts) (hash : Topic → Topic) (k_value : ℕ) where
  abbrev pub then_ : Option Service → (Service → Option Service) → Option Service
  then_ none k = none
  then_ (some s) k = k s

  -- The loop on the commands that wait, `none` being a panic.
  unfoldable pub run : List NetworkCommand → Service → ℕ → Option Service
  run [] s now = some s
  run (msg ∷ rest) s now = then_ (handle ids t hash k_value s msg now) (λ s'. run rest s' now)

  run-append :
      (xs ys : List NetworkCommand) (s s' : Service) (now : ℕ)
      → run xs s now ≡ some s'
      → run (xs ++ ys) s now ≡ run ys s' now
  unfolding run
  run-append [] ys s s' now h = ground (arith, h)
  run-append (x ∷ xs) ys s s' now h = elim (Option-cases (handle ids t hash k_value s x now)) [
    | inl panic ↦ absurd (cc (h, ap (λ o. then_ o (λ s1. run xs s1 now)) panic))
    | inr (s1, e) ↦
        rw e (run-append xs ys s1 s' now (sym (ap (λ o. then_ o (λ s2. run xs s2 now)) e) ∙ h))
  ]

  settled :
      (id : QueryId) (q : Queries)
      → lookup QueryId-discrete id (settle (λ _. dropped) id q).channels ≡ none
  unfolding settle
  settled id q = elim (Option-cases (lookup QueryId-discrete id q.channels)) [
    | inl e ↦ ground (arith, e)
    | inr (ch, e) ↦
        rw e (
          lookup-remove QueryId-discrete id id q.channels
          ∙ if_pos (QueryId-discrete id id) refl _ _)
  ]

  -- The service after the cancelling of a query of bitswap.
  abbrev pub after_cancel : Service → ℕ → Service
  after_cancel s id = record s {
    net = record (s.net) {
      behaviour = call s.net.behaviour (bitswap_cancel id);
      queries = settle (λ _. dropped) (bitswap id) s.net.queries;
    };
  }

  cancelled :
      (s : Service) (id now : ℕ)
      → run (cancel_query (bitswap id) ∷ []) s now
        ≡ (if s.net.behaviour.bitswap then some (after_cancel s id) else none)
  unfolding run handle Calls.step Requests.cancel
  cancelled s id now = elim (Bool-cases s.net.behaviour.bitswap) [
    | inl e ↦ rw e refl
    | inr e ↦ rw e refl
  ]

  -- Where the command channel has room and the loop gets through the commands that wait in it: once
  -- it has handled the drop of a query of bitswap, the query is gone from the queries, and bitswap
  -- is told; if bitswap is not enabled the loop panics on the drop.
  pub drop-cancels :
      (c : Commands) (s s' : Service) (id now : ℕ)
      → c.disconnected ≡ false
      → c.full ≡ false
      → run c.waiting s now ≡ some s'
      → (run (drop_get (bitswap id) c).waiting s now
          ≡ (if s'.net.behaviour.bitswap then some (after_cancel s' id) else none))
        × (run (drop_sync (some (bitswap id)) c).waiting s now
            ≡ (if s'.net.behaviour.bitswap then some (after_cancel s' id) else none))
        × (lookup QueryId-discrete (bitswap id) (after_cancel s' id).net.queries.channels ≡ none)
  unfolding drop_get drop_sync try_send
  drop-cancels c s s' id now open_ room before =
      let sent_ =
        run-append c.waiting (cancel_query (bitswap id) ∷ []) s s' now before
        ∙ cancelled s' id now in
      (
        ground (arith, open_, room, sent_),
        ground (arith, open_, room, sent_),
        settled (bitswap id) s'.net.queries,
      )
