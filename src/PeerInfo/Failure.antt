-- ===== src/PeerInfo/Failure.antt =====
-- src/net/peer_info.rs: `ConnectionFailure`, and the errors of the swarm that the program takes
-- apart. The texts of foreign errors are given by a `Texts`.
use Prim.Native.String.{◌++◌ as append}
use ipfs_embed.Prelude.{ℕ, Bool, true, false, List, [], ◌∷◌, Option, none, some, String}
use ipfs_embed.Multiaddr.{Multiaddr, PeerId, without_peer_id}

pub data ErrorKind : Type 0 where
  invalid_data other_kind : ErrorKind

-- What the error inside `DnsErr::Transport` downcasts to.
pub data TransportCause : Type 0 where
  noise_io : ErrorKind → TransportCause
  other_cause : TransportCause

-- What the error inside `TransportError::Other` downcasts to.
pub data DnsCause : Type 0 where
  dns_transport : TransportCause → DnsCause
  other_dns : DnsCause

-- `TransportError<io::Error>`; the number tells errors apart that read the same to the program
pub data TransportError : Type 0 where
  multiaddr_not_supported : Multiaddr → TransportError
  other_transport : ℕ → DnsCause → TransportError

-- `DialError`; `other_dial` holds the variants that the program does not name
pub data DialError : Type 0 where
  connection_io : ℕ → DialError
  transport : List (Multiaddr × TransportError) → DialError
  wrong_peer_id : PeerId → DialError
  dial_peer_condition_false : DialError
  banned : DialError
  local_peer_id : DialError
  other_dial : ℕ → DialError

-- `ConnectionError<MyHandlerError>`: the protocol whose handler failed, an I/O error of the
-- connection, or a timeout
pub data ConnectionError : Type 0 where
  kademlia : ℕ → ConnectionError
  ping : ℕ → ConnectionError
  identify : ℕ → ConnectionError
  bitswap : ℕ → ConnectionError
  gossipsub : ℕ → ConnectionError
  broadcast : ℕ → ConnectionError
  io : ℕ → ConnectionError
  keep_alive_timeout : ConnectionError

-- `Display` and `Debug` of types of libp2p and of `std::io`.
pub record Texts : Type 0 where
  pub display : DialError → String
  pub debug : DialError → String
  pub display_io : ℕ → String
  pub display_transport : TransportError → String
  pub debug_transport : TransportError → String
  pub display_handler : ℕ → String
  pub debug_closed : Option ConnectionError → String
  pub source : TransportError → Option String
  pub display_addr : Multiaddr → String

pub data ConnectionFailureKind : Type 0 where
  dial_error peer_disconnected we_disconnected : ConnectionFailureKind

pub record ConnectionFailure : Type 0 where
  pub kind : ConnectionFailureKind
  pub addr : Multiaddr
  pub time : ℕ
  pub display : String
  pub debug : String

-- `impl Display for D`
unfoldable pub show_transport : Texts → TransportError → String
show_transport t e = elim (t.source e) [
  | none ↦ t.display_transport e
  | some cause ↦ append (t.display_transport e) cause
]

unfoldable pub transport_lines : Texts → List (Multiaddr × TransportError) → String
unfolding show_transport
transport_lines t [] = ""
transport_lines t ((addr, err) ∷ rest) = append "\n" (
    append (t.display_addr (without_peer_id addr))
      (append " " (append (show_transport t err) (transport_lines t rest))))

abbrev pub transport_display : Texts → List (Multiaddr × TransportError) → String
transport_display t ((addr, err) ∷ []) = append "transport error: " (show_transport t err)
transport_display t errors = append "transport errors:" (transport_lines t errors)

abbrev pub dial_display : Texts → DialError → String
dial_display t (connection_io e) = append "I/O error: " (t.display_io e)
dial_display t (transport errors) = transport_display t errors
dial_display t error = t.display error

-- `ConnectionFailure::dial`
unfoldable pub dial_failure_of : Texts → Multiaddr → DialError → ℕ → ConnectionFailure
dial_failure_of t addr error now = record {
  kind = dial_error;
  addr = without_peer_id addr;
  time = now;
  display = dial_display t error;
  debug = t.debug error;
}

-- `ConnectionFailure::transport`
unfoldable pub transport_failure_of : Texts → Multiaddr → TransportError → ℕ → ConnectionFailure
transport_failure_of t addr error now = record {
  kind = dial_error;
  addr = without_peer_id addr;
  time = now;
  display = append "transport error: " (show_transport t error);
  debug = t.debug_transport error;
}

-- `ConnectionFailure::us` and `ConnectionFailure::them`
unfoldable pub closed_by :
    ConnectionFailureKind → Multiaddr → String → String → ℕ → ConnectionFailure
closed_by kind addr display debug now = record {
  kind = kind;
  addr = addr;
  time = now;
  display = display;
  debug = debug;
}

-- src/net/peers.rs: `is_sim_open`
unfoldable pub is_sim_open : TransportError → Bool
is_sim_open (other_transport e (dns_transport (noise_io invalid_data))) = true
is_sim_open _ = false
