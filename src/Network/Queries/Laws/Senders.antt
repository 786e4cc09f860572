-- ===== src/Network/Queries/Laws/Senders.antt =====
-- src/net/behaviour.rs: the senders in the table of waiting queries, through the events.
use ipfs_embed.Prelude.{
  ℕ, ◌+◌, ◌≡◌, ◌==◌, refl, Bool, true, false, not, ◌&&◌, ◌||◌, List, [], ◌∷◌, ◌++◌, Option, none,
  some, arith, lookup, insert, remove, Distinct, Distinct-insert, Distinct-remove, Option-cases,
  Bool-cases, inl, inr, leb, length,
}
use ipfs_embed.Network.Queries.{
  QueryId, QueryId-discrete, kad, QueryChannel, Sender, sender, Answer, progress, dropped, get,
  sync, bootstrap, get_closest_peers, get_providers, start_providing, get_record, put_record,
  Queries, get_query, settle, register, update, found_providers, found_record, FoundProviders,
  FoundRecord, to_bootstrap, to_get_closest_peers, to_get_providers, to_start_providing,
  to_get_record, to_put_record, to_bitswap, KadState, KademliaEvent, outbound_query_progressed,
  other_event, QueryResult, bootstrap_result, get_closest_peers_result, get_providers_result,
  start_providing_result, republish_provider_result, get_record_result, put_record_result,
  republish_record_result, ok, failed, providers_progressed, record_progressed, query_progressed,
  inject_kad_event, bootstrap_progressed,
}

abbrev pub one_if : Bool → ℕ
one_if true = 1
one_if false = 0

-- How many queries wait with a sender.
abbrev pub waiting : Sender → List (QueryId × QueryChannel) → ℕ
waiting tx [] = 0
waiting tx ((id, ch) ∷ m) = one_if (sender ch == tx) + waiting tx m

abbrev pub is_progress : Answer → Bool
is_progress (progress n) = true
is_progress _ = false

-- How often a sender was used up: it sent its answer, or was dropped.
abbrev pub used_up : Sender → List (Sender × Answer) → ℕ
used_up tx [] = 0
used_up tx ((s, a) ∷ m) = one_if (s == tx && not (is_progress a)) + used_up tx m

abbrev pub total : Sender → Queries → ℕ
total tx q = waiting tx q.channels + used_up tx q.sent

pub used_up-append :
    (tx : Sender) (xs ys : List (Sender × Answer))
    → used_up tx (xs ++ ys) ≡ used_up tx xs + used_up tx ys
used_up-append tx [] ys = omega arith
used_up-append tx ((s, a) ∷ xs) ys = omega (arith, used_up-append tx xs ys)

remove_absent :
    (id : QueryId) (m : List (QueryId × QueryChannel))
    → lookup QueryId-discrete id m ≡ none
    → remove QueryId-discrete id m ≡ m
unfolding lookup remove
remove_absent id [] h = refl
remove_absent id ((i, ch) ∷ m) h = ground (arith, remove_absent id m)

waiting-remove :
    (tx : Sender) (id : QueryId) (ch : QueryChannel) (m : List (QueryId × QueryChannel))
    → Distinct QueryId-discrete m
    → lookup QueryId-discrete id m ≡ some ch
    → waiting tx (remove QueryId-discrete id m) + one_if (sender ch == tx) ≡ waiting tx m
unfolding lookup remove
waiting-remove tx id ch [] d h = cc
waiting-remove tx id ch ((i, other) ∷ m) d h = elim (QueryId-discrete i id) [
  | yes e ↦ ground (arith, remove_absent id m, d.0)
  | no e ↦ ground (arith, waiting-remove tx id ch m d.1)
]

waiting-insert_new :
    (tx : Sender) (id : QueryId) (ch : QueryChannel) (m : List (QueryId × QueryChannel))
    → lookup QueryId-discrete id m ≡ none
    → waiting tx (insert QueryId-discrete id ch m) ≡ waiting tx m + one_if (sender ch == tx)
unfolding lookup insert
waiting-insert_new tx id ch [] h = omega arith
waiting-insert_new tx id ch ((i, other) ∷ m) h = ground (arith, waiting-insert_new tx id ch m)

waiting-insert_over :
    (tx : Sender) (id : QueryId) (ch old : QueryChannel) (m : List (QueryId × QueryChannel))
    → lookup QueryId-discrete id m ≡ some old
    → waiting tx (insert QueryId-discrete id ch m) + one_if (sender old == tx)
      ≡ waiting tx m + one_if (sender ch == tx)
unfolding lookup insert
waiting-insert_over tx id ch old [] h = cc
waiting-insert_over tx id ch old ((i, other) ∷ m) h =
    ground (arith, waiting-insert_over tx id ch old m)

-- A query table in which an identifier stands once, and a sender is counted by `total`.
abbrev pub Keeps : Queries → Queries → Type 0
Keeps q q' = Distinct QueryId-discrete q'.channels × ((tx : Sender) → total tx q' ≡ total tx q)

pub settle-Keeps :
    (f : QueryChannel → Answer) (id : QueryId) (q : Queries)
    → ((ch : QueryChannel) → is_progress (f ch) ≡ false)
    → Distinct QueryId-discrete q.channels
    → Keeps q (settle f id q)
unfolding settle
settle-Keeps f id q nf d = elim (Option-cases (get_query id q)) [
  | inl e ↦ rw e (d, λ tx. refl)
  | inr (ch, e) ↦ rw e (
    Distinct-remove QueryId-discrete id q.channels d,
    λ tx. ground (
      arith,
      nf ch,
      used_up-append tx q.sent ((sender ch, f ch) ∷ []),
      waiting-remove tx id ch q.channels d e,
    ),
  )
]

update-Keeps :
    (id : QueryId) (ch old : QueryChannel) (q : Queries)
    → get_query id q ≡ some old
    → sender ch ≡ sender old
    → Distinct QueryId-discrete q.channels
    → Keeps q (update id ch q)
update-Keeps id ch old q e s d = (
  Distinct-insert QueryId-discrete id ch q.channels d,
  λ tx. ground (arith, waiting-insert_over tx id ch old q.channels e),
)

Keeps-trans : (p q r : Queries) → Keeps p q → Keeps q r → Keeps p r
Keeps-trans p q r h k = (k.0, λ tx. omega (arith, h.1 tx, k.1 tx))

-- A new query adds one use of its sender. Where the identifier was taken, the old sender is dropped.
pub register-total :
    (id : QueryId) (ch : QueryChannel) (q : Queries) (tx : Sender)
    → total tx (register id ch q) ≡ total tx q + one_if (sender ch == tx)
unfolding register
register-total id ch q tx = elim (Option-cases (get_query id q)) [
  | inl e ↦ ground (arith, waiting-insert_new tx id ch q.channels e)
  | inr (old, e) ↦ ground (
    arith,
    waiting-insert_over tx id ch old q.channels e,
    used_up-append tx q.sent ((sender old, dropped) ∷ []),
  )
]

-- The answers of the arms are final.
final_bootstrap :
    (a : Answer)
    → is_progress a ≡ false
    → (ch : QueryChannel) → is_progress (to_bootstrap a ch) ≡ false
final_bootstrap a h (bootstrap tx) = h
final_bootstrap a h _ = refl

final_closest :
    (a : Answer)
    → is_progress a ≡ false
    → (ch : QueryChannel) → is_progress (to_get_closest_peers a ch) ≡ false
final_closest a h (get_closest_peers tx) = h
final_closest a h _ = refl

final_providers :
    (a : Answer)
    → is_progress a ≡ false
    → (ch : QueryChannel) → is_progress (to_get_providers a ch) ≡ false
final_providers a h (get_providers set tx) = h
final_providers a h _ = refl

final_providing :
    (a : Answer)
    → is_progress a ≡ false
    → (ch : QueryChannel) → is_progress (to_start_providing a ch) ≡ false
final_providing a h (start_providing tx) = h
final_providing a h _ = refl

final_record :
    (a : Answer)
    → is_progress a ≡ false
    → (ch : QueryChannel) → is_progress (to_get_record a ch) ≡ false
final_record a h (get_record quorum records tx) = h
final_record a h _ = refl

final_put :
    (a : Answer)
    → is_progress a ≡ false
    → (ch : QueryChannel) → is_progress (to_put_record a ch) ≡ false
final_put a h (put_record tx) = h
final_put a h _ = refl

pub final_bitswap :
    (a : Answer)
    → is_progress a ≡ false
    → (ch : QueryChannel) → is_progress (to_bitswap a ch) ≡ false
final_bitswap a h (get tx) = h
final_bitswap a h (sync tx) = h
final_bitswap a h _ = refl

providers-Keeps :
    (id : ℕ) (last : Bool) (res : FoundProviders) (q : Queries) (o : Option QueryChannel)
    → get_query (kad id) q ≡ o
    → Distinct QueryId-discrete q.channels
    → Keeps q (providers_progressed id last res q o)
providers-Keeps id last res q (some (get_providers set tx)) e d =
    let ch = get_providers (found_providers set res) tx in
    let u = update-Keeps (kad id) ch (get_providers set tx) q e refl d in
    elim (Bool-cases last) [
      | inl l ↦ rw l (
          Keeps-trans q (update (kad id) ch q) _ u
            (settle-Keeps _ (kad id) (update (kad id) ch q) (final_providers _ refl) u.0))
      | inr l ↦ rw l u
    ]
providers-Keeps id last res q none e d = (d, λ tx. refl)
providers-Keeps id last res q (some (get s)) e d = (d, λ tx. refl)
providers-Keeps id last res q (some (sync s)) e d = (d, λ tx. refl)
providers-Keeps id last res q (some (bootstrap s)) e d = (d, λ tx. refl)
providers-Keeps id last res q (some (get_closest_peers s)) e d = (d, λ tx. refl)
providers-Keeps id last res q (some (start_providing s)) e d = (d, λ tx. refl)
providers-Keeps id last res q (some (get_record n rs s)) e d = (d, λ tx. refl)
providers-Keeps id last res q (some (put_record s)) e d = (d, λ tx. refl)

record-Keeps :
    (id : ℕ) (last : Bool) (res : FoundRecord) (s : KadState) (o : Option QueryChannel)
    → get_query (kad id) s.queries ≡ o
    → Distinct QueryId-discrete s.queries.channels
    → Keeps s.queries (record_progressed id last res s o).queries
record-Keeps id last res s (some (get_record quorum records tx)) e d =
    let records' = found_record records res in
    let ch = get_record quorum records' tx in
    let u = update-Keeps (kad id) ch (get_record quorum records tx) s.queries e refl d in
    elim (Bool-cases (last || leb quorum (length records'))) [
      | inl l ↦ rw l (
          Keeps-trans s.queries (update (kad id) ch s.queries) _ u
            (settle-Keeps _ (kad id) (update (kad id) ch s.queries) (final_record _ refl) u.0))
      | inr l ↦ rw l u
    ]
record-Keeps id last res s none e d = (d, λ tx. refl)
record-Keeps id last res s (some (get x)) e d = (d, λ tx. refl)
record-Keeps id last res s (some (sync x)) e d = (d, λ tx. refl)
record-Keeps id last res s (some (bootstrap x)) e d = (d, λ tx. refl)
record-Keeps id last res s (some (get_closest_peers x)) e d = (d, λ tx. refl)
record-Keeps id last res s (some (start_providing x)) e d = (d, λ tx. refl)
record-Keeps id last res s (some (get_providers ps x)) e d = (d, λ tx. refl)
record-Keeps id last res s (some (put_record x)) e d = (d, λ tx. refl)

bootstrap-Keeps :
    (id n : ℕ) (s : KadState)
    → Distinct QueryId-discrete s.queries.channels
    → Keeps s.queries (bootstrap_progressed id n s).queries
bootstrap-Keeps id n s d = elim (Bool-cases (n == 0)) [
  | inl e ↦ rw e (settle-Keeps _ (kad id) s.queries (final_bootstrap _ refl) d)
  | inr e ↦ rw e (d, λ tx. refl)
]

-- In a table in which each identifier stands once, no event of Kademlia loses a sender or uses one
-- twice: a sender that waited still waits, or was
-- used up once, with its answer or by being dropped; and each identifier waits for one answer.
pub inject_kad_event-Keeps :
    (event : KademliaEvent) (s : KadState)
    → Distinct QueryId-discrete s.queries.channels
    → Keeps s.queries (inject_kad_event event s).queries
unfolding inject_kad_event
inject_kad_event-Keeps other_event s d = (d, λ tx. refl)
inject_kad_event-Keeps (outbound_query_progressed id result last) s d = go result
  where
    q : Queries
    q = s.queries

    go : (r : QueryResult) → Keeps q (query_progressed id r last s).queries
    go (bootstrap_result (ok n)) = bootstrap-Keeps id n s d
    go (bootstrap_result (failed e)) = settle-Keeps _ (kad id) q (final_bootstrap _ refl) d
    go (get_closest_peers_result (ok ps)) = settle-Keeps _ (kad id) q (final_closest _ refl) d
    go (get_closest_peers_result (failed e)) = settle-Keeps _ (kad id) q (final_closest _ refl) d
    go (get_providers_result (ok res)) = providers-Keeps id last res q (get_query (kad id) q) refl d
    go (get_providers_result (failed e)) = settle-Keeps _ (kad id) q (final_providers _ refl) d
    go (start_providing_result (ok _)) = settle-Keeps _ (kad id) q (final_providing _ refl) d
    go (start_providing_result (failed e)) = settle-Keeps _ (kad id) q (final_providing _ refl) d
    go republish_provider_result = (d, λ tx. refl)
    go (get_record_result (ok res)) = record-Keeps id last res s (get_query (kad id) q) refl d
    go (get_record_result (failed e)) = settle-Keeps _ (kad id) q (final_record _ refl) d
    go (put_record_result (ok _)) = settle-Keeps _ (kad id) q (final_put _ refl) d
    go (put_record_result (failed e)) = settle-Keeps _ (kad id) q (final_put _ refl) d
    go republish_record_result = (d, λ tx. refl)
