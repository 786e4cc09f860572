-- ===== src/Harness/Deadlines.antt =====
-- harness/src/lib.rs: the addresses and the waiting times of the scenarios. The future that is waited
-- for is the package async_std's.
use ipfs_embed.Prelude.{
  ℕ, ◌+◌, ◌-◌, ◌*◌, ◌≡◌, arith, true, false, not, Bool, leb, max, if◌then◌else◌, Option, some,
  first?,
}
use ipfs_embed.Multiaddr.{Multiaddr, Protocol, ip4, is_loopback_v4}

abbrev tenth_of_second : ℕ
tenth_of_second = 100000000

-- The time that `deadline` waits, in nanoseconds: up to `d` seconds after an instant that is
-- `elapsed` ago.
unfoldable pub deadline : ℕ → ℕ → ℕ
deadline elapsed seconds =
    let d = seconds * 1000000000 in
    if leb d (elapsed + tenth_of_second) then tenth_of_second else d - elapsed

-- the test of the first protocol
abbrev is_loopback_first : Option Protocol → Bool
is_loopback_first (some (ip4 ip)) = if not (is_loopback_v4 ip) then false else true
is_loopback_first _ = true

-- `MultiaddrExt::is_loopback` of the harness
unfoldable pub is_loopback : Multiaddr → Bool
is_loopback addr = is_loopback_first (first? addr)

-- A wait ends at the deadline, or a tenth of a second from now if that is later.
deadline-max :
    (elapsed seconds : ℕ)
    → elapsed + deadline elapsed seconds ≡ max (seconds * 1000000000) (elapsed + tenth_of_second)
unfolding deadline
deadline-max elapsed seconds = ground arith
