-- ===== src/Examples/QueriesAt.antt =====
-- The theorems on the waiting queries, at a query for a record and one for providers.
use ipfs_embed.Prelude.{
  ℕ, ℕ_discrete, ◌≡◌, ◌≤◌, ◌<◌, ◌⊎◌, true, false, [], ◌∷◌, none, some, refl, arith, length, lookup,
}
use ipfs_embed.Network.Queries.{
  QueryId-discrete, kad, get_record, get_providers, Queries, KadState, get_query,
  outbound_query_progressed, get_record_result, ok, ok_records, inject_kad_event,
}
use ipfs_embed.Network.Queries.Laws.Replies.{get_record_quorum}
use ipfs_embed.Examples.Constants.{book}

abbrev queries : Queries
queries = record {
  channels = (kad 4, get_record 2 (70 ∷ []) 100) ∷ (kad 5, get_providers (2 ∷ []) 101) ∷ [];
  sent = [];
}

abbrev state : KadState
state = record {
  behaviour = record {
    book = book;
    kad = true;
    gossipsub = true;
    broadcast = true;
    bitswap = true;
    calls = [];
  };
  bootstrap_complete = true;
  queries = queries;
}

get_record_quorum_example :
    let s' =
      inject_kad_event
        (outbound_query_progressed 4 (get_record_result (ok (some 71))) false)
        state in
    ((get_query (kad 4) s'.queries ≡ some (get_record 2 (70 ∷ 71 ∷ []) 100))
      × (length {A = ℕ} (70 ∷ 71 ∷ []) < 2)
      × (false ≡ false)
      × (s'.queries.sent ≡ []))
    ⊎ ((get_query (kad 4) s'.queries ≡ none)
        × (length {A = ℕ} (70 ∷ 71 ∷ []) ≤ 2)
        × (s'.queries.sent ≡ (100, ok_records (70 ∷ 71 ∷ [])) ∷ []))
unfolding lookup QueryId-discrete ℕ_discrete
get_record_quorum_example = get_record_quorum 4 false 71 state 2 (70 ∷ []) 100 refl (omega arith)
