-- ===== src/AddressBook/Invariant/Ops/Identifying.antt =====
-- src/net/peers.rs: `set_info` keeps the invariant.
use ipfs_embed.Prelude.{
  ℕ, ◌≢◌, ◌≡◌, ◌&&◌, true, not, List, [], ◌∷◌, Option, none, some, All, All-append, All-map,
  All-retain, Bool-cases, inl, inr, Option-cases, is_empty, refl, map, retain, holds, pop_back,
}
use ipfs_embed.Multiaddr.{
  Multiaddr, PeerId, PeerIds, IpAddr, IpAddr-discrete, has_peer_id, ip_port, replace_port,
  normalize_addr,
}
use ipfs_embed.Multiaddr.Laws.{has_peer_id-normalize_addr}
use ipfs_embed.PeerInfo.{PeerInfo, ingest_address, addresses_to_translate, sources_of}
use ipfs_embed.PeerInfo.Source.{AddressSource, listen, candidate, is_to_translate}
use ipfs_embed.AddressBook.State.{AddressBook, Action, get_info, contains, connected_at, new_info}
use ipfs_embed.AddressBook.Identify.{
  Info, set_insert, set_extend, common_ports, with_port, translations, translate, offer, offer_all,
  identified, offered, identify_peer, listen_ports, set_info, info_set,
}
use ipfs_embed.AddressBook.Invariant.Info.{
  InfoIsValid, EndsInPeer, ingest_address-IsValid, replace_port-ends,
}
use ipfs_embed.AddressBook.Invariant.Book.{
  IsValid, IsForeign, notify-IsValid, put_info-IsValid, get_info-IsValid,
}

abbrev AllEnd : List Multiaddr → Type 0
AllEnd = All (λ a. has_peer_id a ≡ true)

set_insert-ends :
    (a : Multiaddr) (set : List Multiaddr)
    → has_peer_id a ≡ true
    → AllEnd set
    → AllEnd (set_insert a set)
unfolding set_insert
set_insert-ends a set e h = elim (Bool-cases (contains a set)) [
  | inl c ↦ rw c h
  | inr c ↦ rw c (All-append (λ x. has_peer_id x ≡ true) set (a ∷ []) h (e, tt))
]

set_extend-ends :
    (addrs set : List Multiaddr) → AllEnd addrs → AllEnd set → AllEnd (set_extend addrs set)
unfolding set_extend
set_extend-ends [] set g h = h
set_extend-ends (a ∷ addrs) set g h =
    set_extend-ends addrs (set_insert a set) g.1 (set_insert-ends a set g.0 h)

with_port-ends :
    (addr : Multiaddr) (port : ℕ) {q : IpAddr × ℕ}
    → has_peer_id addr ≡ true
    → ip_port addr ≡ some q
    → has_peer_id (with_port addr port) ≡ true
with_port-ends addr port e h = elim (Option-cases (replace_port addr port)) [
  | inl r ↦ rw r e
  | inr (a, r) ↦ rw r (replace_port-ends addr a port e h r)
]

all_ports {ℓ} :
    {A : Type ℓ} (addr : Multiaddr) (f : A → ℕ) (xs : List A) {q : IpAddr × ℕ}
    → has_peer_id addr ≡ true
    → ip_port addr ≡ some q
    → AllEnd (map (λ x. with_port addr (f x)) xs)
all_ports addr f [] e h = tt
all_ports addr f (x ∷ xs) e h = (with_port-ends addr (f x) e h, all_ports addr f xs e h)

translations-ends :
    (ports : List (IpAddr × ℕ)) (addr : Multiaddr) (o : Option (IpAddr × ℕ))
    → has_peer_id addr ≡ true
    → ip_port addr ≡ o
    → AllEnd (translations ports addr o)
translations-ends ports addr none e h = tt
translations-ends ports addr (some (ip, p)) e h =
    let same_ip = retain (λ x. holds (IpAddr-discrete x.0 ip)) ports in
    elim (Bool-cases (not (is_empty same_ip))) [
      | inl c ↦ rw c (all_ports addr (λ x. x.1) same_ip e h)
      | inr c ↦ elim (Bool-cases (not (is_empty (common_ports ports)))) [
        | inl d ↦ rw (c, d) (all_ports addr (λ x. x) (common_ports ports) e h)
        | inr d ↦ rw (c, d) (e, tt)
      ]
    ]

translate-ends :
    (ports : List (IpAddr × ℕ)) (addrs set : List Multiaddr)
    → AllEnd addrs
    → AllEnd set
    → AllEnd (translate ports addrs set)
unfolding translate
translate-ends ports [] set g h = h
translate-ends ports (addr ∷ rest) set g h =
    translate-ends ports rest (set_extend (translations ports addr (ip_port addr)) set) g.1
      (set_extend-ends _ set (translations-ends ports addr (ip_port addr) g.0 refl) h)

to_translate-ends :
    (addrs : List (Multiaddr × (AddressSource × ℕ)))
    → All EndsInPeer addrs
    → AllEnd (sources_of addrs is_to_translate)
to_translate-ends addrs h =
    All-map (λ a. has_peer_id a ≡ true) (λ e. e.0) _ (All-retain EndsInPeer _ addrs h)

normalized-ends :
    (ids : PeerIds) (peer : PeerId) (addrs : List Multiaddr)
    → AllEnd (map (λ a. normalize_addr ids a peer) addrs)
normalized-ends ids peer [] = tt
normalized-ends ids peer (a ∷ addrs) =
    (has_peer_id-normalize_addr ids a peer, normalized-ends ids peer addrs)

offered-ends :
    (ids : PeerIds) (b : AddressBook) (peer : PeerId) (info : PeerInfo)
    → InfoIsValid info
    → AllEnd (offered ids b peer info)
unfolding offered addresses_to_translate
offered-ends ids b peer info i =
    set_extend-ends _ _ (normalized-ends ids peer _)
      (translate-ends (listen_ports ids peer info) _ [] (to_translate-ends _ i.addresses_end) tt)

abbrev OfferIsValid : PeerId → PeerInfo × List Action → Type 0
OfferIsValid own s = InfoIsValid s.0 × All (IsForeign own) s.1

offer-IsValid :
    (b : AddressBook) (peer : PeerId) (now : ℕ) (addr : Multiaddr) (s : PeerInfo × List Action)
    → peer ≢ b.local_peer_id
    → has_peer_id addr ≡ true
    → OfferIsValid b.local_peer_id s
    → OfferIsValid b.local_peer_id (offer b peer now addr s)
unfolding offer
offer-IsValid b peer now addr (info, dials) n e (i, h) =
    let r = ingest_address info addr listen now in
    let i' = ingest_address-IsValid info addr listen now e i in
    elim (Bool-cases (contains (pop_back addr) b.listeners)) [
      | inl c ↦ rw c (i, h)
      | inr c ↦ elim (Bool-cases (not r.1)) [
        | inl d ↦ rw (c, d) (i', h)
        | inr d ↦ elim (Bool-cases (b.port_reuse && connected_at r.0 addr)) [
          | inl f ↦ rw (c, d, f) (ingest_address-IsValid r.0 addr candidate now e i', h)
          | inr f ↦ rw (c, d, f) (i', All-append (IsForeign b.local_peer_id) dials _ h (n, tt))
        ]
      ]
    ]

offer_all-IsValid :
    (b : AddressBook) (peer : PeerId) (now : ℕ) (addrs : List Multiaddr)
    (s : PeerInfo × List Action)
    → peer ≢ b.local_peer_id
    → AllEnd addrs
    → OfferIsValid b.local_peer_id s
    → OfferIsValid b.local_peer_id (offer_all b peer now addrs s)
unfolding offer_all
offer_all-IsValid b peer now [] s n e h = h
offer_all-IsValid b peer now (a ∷ rest) s n e h =
    offer_all-IsValid b peer now rest (offer b peer now a s) n e.1
      (offer-IsValid b peer now a s n e.0 h)

pub set_info-IsValid :
    (ids : PeerIds) (b : AddressBook) (peer : PeerId) (identify : Info) (now : ℕ)
    → IsValid b
    → IsValid (set_info ids b peer identify now)
unfolding set_info identify_peer
set_info-IsValid ids b peer identify now v = elim (Option-cases (get_info peer b.peers)) [
  | inl e ↦ rw e v
  | inr (info, e) ↦ let (n, i) = get_info-IsValid b peer info e v in rw e (taken n i)
]
  where
    taken :
        {info : PeerInfo}
        → peer ≢ b.local_peer_id
        → InfoIsValid info
        → IsValid (info_set ids b peer identify now (some info))
    taken {info} n i =
        let info' = identified info identify in
        let valid : InfoIsValid info' = record {
          addresses_end = i.addresses_end;
          connections_end = i.connections_end;
          failures_bounded = i.failures_bounded;
        } in
        let start : InfoIsValid (record info' {
          addresses = retain (λ e. not (is_to_translate e.1.0)) info'.addresses;
        }) =
          record {
            addresses_end = All-retain EndsInPeer _ info'.addresses i.addresses_end;
            connections_end = i.connections_end;
            failures_bounded = i.failures_bounded;
          } in
        let (i', h) =
          offer_all-IsValid b peer now (offered ids b peer info') (_, []) n
            (offered-ends ids b peer info' valid) (start, tt) in
        let v' = put_info-IsValid b peer _ n i' v in
        notify-IsValid _ (new_info peer) (record {
          peers_valid = v'.peers_valid;
          peers_distinct = v'.peers_distinct;
          actions_foreign = All-append (IsForeign b.local_peer_id) b.actions _ v.actions_foreign h;
          deferred_foreign = v.deferred_foreign;
        })
