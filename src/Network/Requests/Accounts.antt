-- ===== src/Network/Requests/Accounts.antt =====
-- src/net/behaviour.rs: the identifiers and the senders in the table of waiting queries, through the
-- calls.
use ipfs_embed.Prelude.{
  ℕ, ◌+◌, ◌≡◌, ◌==◌, refl, Bool, true, false, [], ◌∷◌, Option, none, some, arith, if◌then◌else◌,
  Distinct, Distinct-insert, Option-cases, Bool-cases, inl, inr,
}
use ipfs_embed.Network.State.{Behaviour}
use ipfs_embed.Network.Queries.{
  Sender, QueryId, QueryId-discrete, kad as kad_id, bitswap as bitswap_id, QueryChannel, sender,
  Queries, KadResult, ok, failed, KadState, BitswapEvent, progressed, complete, inject_kad_event,
  inject_bitswap_event, register, send, Answer, err, dropped, not_bootstrapped, kad_error,
  kad_store_error, get_query, bitswap_answer, progress, sync_progressed,
}
use ipfs_embed.Network.Queries
use ipfs_embed.Network.Queries.Laws.Senders.{
  one_if, total, is_progress, used_up-append, Keeps, settle-Keeps, register-total,
  inject_kad_event-Keeps, final_bitswap,
}
use ipfs_embed.Network.Requests.{quorum_of, bootstrap_started, store_started}
use ipfs_embed.Network.Requests
use ipfs_embed.Network.Requests.Calls.{
  Call, bootstrap, provide, providers, get_record, put_record, get, sync, cancel, kad_event,
  bitswap_event, step, hands_over,
}

-- The table after a call, with each identifier once, and the senders that it hands over added.
abbrev pub Adds : (Sender → ℕ) → Queries → Queries → Type 0
Adds n q q' =
    Distinct QueryId-discrete q'.channels × ((tx : Sender) → total tx q' ≡ total tx q + n tx)

register-Adds :
    (id : QueryId) (ch : QueryChannel) (q : Queries)
    → Distinct QueryId-discrete q.channels
    → Adds (λ tx. one_if (sender ch == tx)) q (register id ch q)
unfolding register
register-Adds id ch q d = (
  elim (Option-cases (get_query id q)) [
    | inl e ↦ rw e (Distinct-insert QueryId-discrete id ch q.channels d)
    | inr (old, e) ↦ rw e (Distinct-insert QueryId-discrete id ch q.channels d)
  ],
  λ tx. register-total id ch q tx,
)

send-Adds :
    (q : Queries) (s : Sender) (a : Answer)
    → is_progress a ≡ false
    → Distinct QueryId-discrete q.channels
    → Adds (λ tx. one_if (s == tx)) q (send q s a)
send-Adds q s a f d = (d, λ tx. ground (arith, used_up-append tx q.sent ((s, a) ∷ [])))

Keeps-Adds : (q q' : Queries) → Keeps q q' → Adds (λ _. 0) q q'
Keeps-Adds q q' k = (k.0, λ tx. omega (arith, k.1 tx))

bootstrap-Adds :
    (b : Behaviour) (q : Queries) (s : Sender) (started : KadResult ℕ)
    → Distinct QueryId-discrete q.channels
    → Adds (λ tx. one_if (s == tx)) q (Requests.bootstrap b q s started).1
unfolding Requests.bootstrap
bootstrap-Adds b q s started d = elim (Bool-cases b.kad) [
  | inl e ↦ rw e (go started)
  | inr e ↦ rw e (send-Adds q s (err not_bootstrapped) refl d)
]
  where
    go : (r : KadResult ℕ) → Adds (λ tx. one_if (s == tx)) q (bootstrap_started q s r)
    go (ok id) = register-Adds (kad_id id) (Queries.bootstrap s) q d
    go (failed e) = send-Adds q s (err (kad_error e)) refl d

-- A request that needs a table of known peers, and then Kademlia.
gated-Adds :
    (complete kad : Bool) (b b' : Behaviour) (q q' : Queries) (s : Sender)
    → Distinct QueryId-discrete q.channels
    → Adds (λ tx. one_if (s == tx)) q q'
    → let r : Behaviour × Queries =
        if complete
        then if kad then (b', q') else (b, send q s dropped)
        else (b, send q s (err not_bootstrapped)) in
      Adds (λ tx. one_if (s == tx)) q r.1
gated-Adds true true b b' q q' s d h = h
gated-Adds true false b b' q q' s d h = send-Adds q s dropped refl d
gated-Adds false kad b b' q q' s d h = send-Adds q s (err not_bootstrapped) refl d

store-Adds :
    (ch : Sender → QueryChannel) (q : Queries) (s : Sender) (started : KadResult ℕ)
    → sender (ch s) ≡ s
    → Distinct QueryId-discrete q.channels
    → Adds (λ tx. one_if (s == tx)) q (store_started ch q s started)
store-Adds ch q s (ok id) e d =
    let h = register-Adds (kad_id id) (ch s) q d in (h.0, λ tx. ground (arith, h.1 tx, e))
store-Adds ch q s (failed n) e d = send-Adds q s (err (kad_store_error n)) refl d

bitswap_event-Keeps :
    (event : BitswapEvent) (q : Queries)
    → Distinct QueryId-discrete q.channels
    → Keeps q (inject_bitswap_event event q)
unfolding inject_bitswap_event
bitswap_event-Keeps (complete id result) q d =
    settle-Keeps _ (bitswap_id id) q (final_bitswap _ (final result)) d
  where
    final : (o : Option ℕ) → is_progress (bitswap_answer o) ≡ false
    final none = refl
    final (some e) = refl
bitswap_event-Keeps (progressed id missing) q d = go (get_query (bitswap_id id) q)
  where
    told : (s : Sender) → Keeps q (send q s (progress missing))
    told s = (d, λ tx. ground (arith, used_up-append tx q.sent ((s, progress missing) ∷ [])))

    go : (o : Option QueryChannel) → Keeps q (sync_progressed missing q o)
    go none = (d, λ tx. refl)
    go (some (Queries.sync s)) = told s
    go (some (Queries.get s)) = (d, λ tx. refl)
    go (some (Queries.bootstrap s)) = (d, λ tx. refl)
    go (some (Queries.get_closest_peers s)) = (d, λ tx. refl)
    go (some (Queries.get_providers ps s)) = (d, λ tx. refl)
    go (some (Queries.start_providing s)) = (d, λ tx. refl)
    go (some (Queries.get_record n rs s)) = (d, λ tx. refl)
    go (some (Queries.put_record s)) = (d, λ tx. refl)

-- The state that a call leads to, if it does not panic.
abbrev pub Leads : KadState → Call → Option KadState → Type 0
Leads s c none = Unit
Leads s c (some s') = Adds (λ tx. hands_over tx c) s.queries s'.queries

pub step-Leads :
    (k : ℕ) (s : KadState) (c : Call)
    → Distinct QueryId-discrete s.queries.channels
    → Leads s c (step k s c)
unfolding step Requests.provide Requests.providers Requests.get_record Requests.put_record
    Requests.get Requests.sync Requests.cancel
step-Leads k s (bootstrap tx started) d = bootstrap-Adds s.behaviour s.queries tx started d
step-Leads k s (provide key tx started) d =
    gated-Adds s.bootstrap_complete s.behaviour.kad s.behaviour _ s.queries _ tx d
      (store-Adds Queries.start_providing s.queries tx started refl d)
step-Leads k s (providers key tx id) d =
    gated-Adds s.bootstrap_complete s.behaviour.kad s.behaviour _ s.queries _ tx d
      (register-Adds (kad_id id) (Queries.get_providers [] tx) s.queries d)
step-Leads k s (get_record key quorum tx id) d =
    gated-Adds s.bootstrap_complete s.behaviour.kad s.behaviour _ s.queries _ tx d
      (register-Adds (kad_id id) (Queries.get_record (quorum_of k quorum) [] tx) s.queries d)
step-Leads k s (put_record rec quorum tx started) d =
    gated-Adds s.bootstrap_complete s.behaviour.kad s.behaviour _ s.queries _ tx d
      (store-Adds Queries.put_record s.queries tx started refl d)
step-Leads k s (get cid ps tx id) d = elim (Bool-cases s.behaviour.bitswap) [
  | inl e ↦ rw e (register-Adds (bitswap_id id) (Queries.get tx) s.queries d)
  | inr e ↦ rw e tt
]
step-Leads k s (sync cid ps missing tx id) d = elim (Bool-cases s.behaviour.bitswap) [
  | inl e ↦ rw e (register-Adds (bitswap_id id) (Queries.sync tx) s.queries d)
  | inr e ↦ rw e tt
]
step-Leads k s (cancel (bitswap_id id)) d = elim (Bool-cases s.behaviour.bitswap) [
  | inl e ↦
      rw e (
        Keeps-Adds s.queries _
          (settle-Keeps (λ _. dropped) (bitswap_id id) s.queries (λ _. refl) d))
  | inr e ↦ rw e tt
]
step-Leads k s (cancel (kad_id id)) d =
    Keeps-Adds s.queries _ (settle-Keeps (λ _. dropped) (kad_id id) s.queries (λ _. refl) d)
step-Leads k s (kad_event event) d =
    Keeps-Adds s.queries (inject_kad_event event s).queries (inject_kad_event-Keeps event s d)
step-Leads k s (bitswap_event event) d =
    Keeps-Adds s.queries (inject_bitswap_event event s.queries)
      (bitswap_event-Keeps event s.queries d)
