-- ===== src/AddressBook/Invariant/Deferrals.antt =====
-- src/net/peers.rs: the dials that are planned where a dial fails or a peer says of itself.
use ipfs_embed.Prelude.{
  All-append, ltb, ℕ, Bool, true, not, ◌&&◌, List, [], ◌∷◌, Option, none, some, ◌≡◌, refl, ◌-◌,
  arith, Bool-cases, inl, inr, or_else, is_empty, ap, sym, subst,
}
use ipfs_embed.Multiaddr.{Multiaddr, PeerId, PeerIds, without_peer_id}
use ipfs_embed.PeerInfo.{PeerInfo}
use ipfs_embed.PeerInfo.Failure.{
  Texts, DialError, TransportError, transport, dial_peer_condition_false, banned, local_peer_id,
}
use ipfs_embed.AddressBook.State.{
  AddressBook, Action, Event, IntoAddressHandler, get_info, notify, new_info, handler_peer_id,
  contains, unreachable,
}
use ipfs_embed.AddressBook.Failures
use ipfs_embed.AddressBook.Identify
use ipfs_embed.AddressBook.Invariant.Plans.{
  IsPlanned, Planned, Plans, retries, notify-Plans, put-Plans, if-Plans, defer-Plans,
}
use ipfs_embed.AddressBook.State.{dial_failure as failure_event}
use ipfs_embed.PeerInfo.Failure.{
  dial_peer_condition_false, banned, local_peer_id, is_sim_open, transport_failure_of,
}
use ipfs_embed.PeerInfo.{push_failure, ingest_address}
use ipfs_embed.PeerInfo.Source.{listen}
use ipfs_embed.Prelude.{pop_back}
use ipfs_embed.AddressBook.State.{connected_at}
use ipfs_embed.Multiaddr.{normalize_addr}

-- The operations that put redials off, or ask for dials while they go over addresses.
module _ (ids : PeerIds) (t : Texts) (keep : Bool) where
  validation_failure-Plans :
      (b : AddressBook) (peer : PeerId) (info : PeerInfo) (h : IntoAddressHandler)
      (addr : Multiaddr) (n : ℕ) (error : DialError) (now : ℕ)
      → h.own_dial ≡ some (addr, n)
      → IsPlanned keep h
      → Plans keep b
      → Plans keep (Failures.validation_failure t b peer info addr n h.keep_alive error now)
  unfolding Failures.validation_failure
  validation_failure-Plans b peer info h addr n error now e p v =
      let put = put-Plans b peer _ v in
      notify-Plans _ (new_info peer) (
        notify-Plans _ (failure_event peer addr (t.display error)) (
          if-Plans (Failures.any_sim_open error && ltb 0 n)
            (defer-Plans _ (Failures.redial peer addr (n - 1) h.keep_alive ∷ [])
              (
                record {
                  kept_open = p.kept_open;
                  bounded = ground (arith, ap retries e, p.bounded);
                },
                tt,
              )
              put)
            put))

  redials-Planned :
      (peer : PeerId) (now : ℕ) (info : PeerInfo) (v : List (Multiaddr × TransportError))
      → Planned keep (Failures.note_errors ids t peer keep now info v).2
  unfolding Failures.note_errors
  redials-Planned peer now info [] = tt
  redials-Planned peer now info ((addr, error) ∷ rest) =
      let ih =
        redials-Planned peer now
          (push_failure info (normalize_addr ids addr peer)
            (transport_failure_of t (without_peer_id addr) error now) true)
          rest in
      elim (Bool-cases (is_sim_open error)) [
        | inl e ↦ rw e (record { kept_open = ground arith; bounded = ground arith }, ih)
        | inr e ↦ rw e ih
      ]

  notify_all-Plans :
      (b : AddressBook) (es : List Event) → Plans keep b → Plans keep (Failures.notify_all b es)
  unfolding Failures.notify_all
  notify_all-Plans b [] v = v
  notify_all-Plans b (e ∷ es) v = notify_all-Plans (notify b e) es (notify-Plans b e v)

  swarm_dial_failure-Plans :
      (b : AddressBook) (peer : PeerId) (info : PeerInfo) (v : List (Multiaddr × TransportError))
      (now : ℕ)
      → Plans keep b
      → Plans keep (Failures.swarm_dial_failure ids t b peer info v now)
  unfolding Failures.swarm_dial_failure
  swarm_dial_failure-Plans b peer info v now p =
      let noted = Failures.note_errors ids t peer b.keep_alive now info v in
      let put = notify_all-Plans _ noted.1 (put-Plans b peer noted.0 p) in
      let planned : Planned keep noted.2 =
        subst (λ k. Planned keep (Failures.note_errors ids t peer k now info v).2) (sym p.kept)
          (redials-Planned peer now info v) in
      notify-Plans _ (new_info peer) (
        defer-Plans _ noted.2 planned
          (if-Plans (is_empty noted.2) (notify-Plans _ (unreachable peer) put) put))

  known_peer_failure-Plans :
      (b : AddressBook) (peer : PeerId) (h : IntoAddressHandler) (own : Option (Multiaddr × ℕ))
      (error : DialError) (now : ℕ) (info : PeerInfo)
      → h.own_dial ≡ own
      → IsPlanned keep h
      → Plans keep b
      → Plans keep (Failures.known_peer_failure ids t b peer own h.keep_alive error now info)
  known_peer_failure-Plans b peer h (some (addr, n)) error now info e p v =
      validation_failure-Plans b peer info h addr n error now e p v
  known_peer_failure-Plans b peer h none (transport errors) now info e p v =
      swarm_dial_failure-Plans b peer info errors now v
  known_peer_failure-Plans b peer h none dial_peer_condition_false now info e p v = v
  known_peer_failure-Plans b peer h none banned now info e p v = v
  known_peer_failure-Plans b peer h none local_peer_id now info e p v = v
  known_peer_failure-Plans b peer h none _ now info e p v = notify-Plans b (unreachable peer) v

  looked_up_failure-Plans :
      (b : AddressBook) (peer : PeerId) (h : IntoAddressHandler) (error : DialError) (now : ℕ)
      (o : Option PeerInfo)
      → IsPlanned keep h
      → Plans keep b
      → Plans keep (Failures.looked_up_failure ids t b peer h error now o)
  looked_up_failure-Plans b peer h error now none p v = v
  looked_up_failure-Plans b peer h error now (some info) p v =
      known_peer_failure-Plans b peer h h.own_dial error now info refl p v

  peer_failure-Plans :
      (b : AddressBook) (h : IntoAddressHandler) (error : DialError) (now : ℕ) (o : Option PeerId)
      → IsPlanned keep h
      → Plans keep b
      → Plans keep (Failures.peer_failure ids t b h error now o)
  peer_failure-Plans b h error now none p v = v
  peer_failure-Plans b h error now (some peer) p v =
      looked_up_failure-Plans b peer h error now (get_info peer b.peers) p v

  pub dial_failure-Plans :
      (b : AddressBook) (h : IntoAddressHandler) (peer_id : Option PeerId) (error : DialError)
      (now : ℕ)
      → IsPlanned keep h
      → Plans keep b
      → Plans keep (Failures.dial_failure ids t b h peer_id error now)
  unfolding Failures.dial_failure
  dial_failure-Plans b h peer_id error now p v =
      peer_failure-Plans b h error now (or_else (handler_peer_id ids h.own_dial) peer_id) p v

  offer-Planned :
      (b : AddressBook) (peer : PeerId) (now : ℕ) (addr : Multiaddr) (s : PeerInfo × List Action)
      → Planned keep s.1
      → Planned keep (Identify.offer b peer now addr s).1
  unfolding Identify.offer
  offer-Planned b peer now addr (info, dials) h =
      let r = ingest_address info addr listen now in
      elim (Bool-cases (contains (pop_back addr) b.listeners)) [
        | inl c ↦ rw c h
        | inr c ↦ elim (Bool-cases (not r.1)) [
          | inl d ↦ rw (c, d) h
          | inr d ↦ elim (Bool-cases (b.port_reuse && connected_at r.0 addr)) [
            | inl f ↦ rw (c, d, f) h
            | inr f ↦
                rw (c, d, f)
                  (All-append _ dials _ h (record { kept_open = refl; bounded = ground arith }, tt))
          ]
        ]
      ]

  offer_all-Planned :
      (b : AddressBook) (peer : PeerId) (now : ℕ) (addrs : List Multiaddr)
      (s : PeerInfo × List Action)
      → Planned keep s.1
      → Planned keep (Identify.offer_all b peer now addrs s).1
  unfolding Identify.offer_all
  offer_all-Planned b peer now [] s h = h
  offer_all-Planned b peer now (a ∷ rest) s h =
      offer_all-Planned b peer now rest (Identify.offer b peer now a s)
        (offer-Planned b peer now a s h)

  info_set-Plans :
      (b : AddressBook) (peer : PeerId) (identify : Identify.Info) (now : ℕ) (o : Option PeerInfo)
      → Plans keep b
      → Plans keep (Identify.info_set ids b peer identify now o)
  unfolding Identify.identify_peer
  info_set-Plans b peer identify now none v = v
  info_set-Plans b peer identify now (some info) v =
      let info' = Identify.identified info identify in
      let dials = offer_all-Planned b peer now (Identify.offered ids b peer info') (_, []) tt in
      notify-Plans _ (new_info peer) (record {
        kept = v.kept;
        actions = All-append _ b.actions _ v.actions dials;
        deferred = v.deferred;
      })

  pub set_info-Plans :
      (b : AddressBook) (peer : PeerId) (identify : Identify.Info) (now : ℕ)
      → Plans keep b
      → Plans keep (Identify.set_info ids b peer identify now)
  unfolding Identify.set_info
  set_info-Plans b peer identify now v =
      info_set-Plans b peer identify now (get_info peer b.peers) v
