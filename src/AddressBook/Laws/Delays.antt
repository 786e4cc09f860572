-- ===== src/AddressBook/Laws/Delays.antt =====
-- src/net/peers.rs: how long a redial is put off.
use ipfs_embed.Prelude.{ℕ, ◌^◌, ◌<◌, ◌≤◌, true, false, arith}
use ipfs_embed.AddressBook.Failures.{redial_delay}

-- A redial waits for a second at most without port reuse, and for one to two seconds with it.
redial_delay-range :
    (random : ℕ)
    → random < 2 ^ 32
    → (redial_delay false random ≤ 1000000000)
      × (1000000000 ≤ redial_delay true random)
      × (redial_delay true random ≤ 2000000000)
unfolding redial_delay
redial_delay-range random h = (omega (arith, h), omega arith, omega (arith, h))
