-- ===== src/Network/Queries/Laws/Replies.antt =====
-- src/net/behaviour.rs: which queries an event touches, and how many records a reply holds.
use ipfs_embed.Prelude.{
  ℕ, ◌≤◌, ◌<◌, ◌≡◌, Bool, false, ◌||◌, List, [], ◌∷◌, ◌++◌, none, some, arith, insert,
  lookup-insert, lookup-remove, Bool-cases, inl, inr, leb, length, length-append, ◌⊎◌,
}
use ipfs_embed.Network.State.{PeerRecord}
use ipfs_embed.Network.Queries.{
  QueryId, QueryId-discrete, kad, QueryChannel, Sender, Answer, ok_records, get_record, Queries,
  get_query, settle, KadState, outbound_query_progressed, get_record_result, ok, inject_kad_event,
}

settled_lookup :
    (f : QueryChannel → Answer) (id : QueryId) (q : Queries) (ch : QueryChannel)
    → get_query id q ≡ some ch
    → (get_query id (settle f id q) ≡ none)
unfolding settle
settled_lookup f id q ch e = ground (arith, lookup-remove QueryId-discrete id id q.channels)

-- A record that arrives for a query short of its quorum is kept: the query goes on waiting, still
-- short of its quorum and not at its last step, or it is over and the reply holds what was found, no
-- more than the quorum.
pub get_record_quorum :
    (id : ℕ) (last : Bool) (r : PeerRecord) (s : KadState) (quorum : ℕ) (records : List PeerRecord)
    (tx : Sender)
    → get_query (kad id) s.queries ≡ some (get_record quorum records tx)
    → length records < quorum
    → let s' =
        inject_kad_event (outbound_query_progressed id (get_record_result (ok (some r))) last) s in
      let records' = records ++ r ∷ [] in
      ((get_query (kad id) s'.queries ≡ some (get_record quorum records' tx))
        × (length records' < quorum)
        × (last ≡ false)
        × (s'.queries.sent ≡ s.queries.sent))
      ⊎ ((get_query (kad id) s'.queries ≡ none)
          × (length records' ≤ quorum)
          × (s'.queries.sent ≡ s.queries.sent ++ (tx, ok_records records') ∷ []))
unfolding inject_kad_event settle
get_record_quorum id last r s quorum records tx e h =
    let records' = records ++ r ∷ [] in
    let ch = get_record quorum records' tx in
    let found = lookup-insert QueryId-discrete (kad id) (kad id) ch s.queries.channels in
    let gone =
      lookup-remove QueryId-discrete (kad id) (kad id)
        (insert QueryId-discrete (kad id) ch s.queries.channels) in
    elim (Bool-cases (last || leb quorum (length records'))) [
      | inl l ↦ inr (
        ground (arith, e, l, found, gone),
        omega (arith, h, length-append records (r ∷ [])),
        ground (arith, e, l, found),
      )
      | inr l ↦
          inl (
            ground (arith, e, l, found),
            ground (arith, l),
            ground (arith, l),
            ground (arith, e, l),
          )
    ]
