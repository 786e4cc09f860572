-- ===== src/PeerInfo/Rtt.antt =====
-- src/net/peer_info.rs: `Rtt`. A `Duration` is its number of nanoseconds, whose `*` and `/` by a
-- `u32` are exact and rounded down; `u32` arithmetic wraps.
use ipfs_embed.Prelude.{ℕ, ◌+◌, ◌*◌, ◌/◌, ◌%◌}

pub record Rtt : Type 0 where
  pub current : ℕ
  pub decay_3 : ℕ
  pub decay_10 : ℕ
  pub failures : ℕ
  pub failure_rate : ℕ

abbrev pub u32 : ℕ → ℕ
u32 n = n % 4294967296

unfoldable pub new : ℕ → Rtt
new current = record {
  current = current;
  decay_3 = current;
  decay_10 = current;
  failures = 0;
  failure_rate = 0;
}

-- Durations in nanoseconds; a time that is so long that a product overflows `Duration`, where the
-- source panics, is left out.
unfoldable pub register : Rtt → ℕ → Rtt
register rtt current = record {
  current = current;
  decay_3 = rtt.decay_3 * 7 / 10 + current * 3 / 10;
  decay_10 = rtt.decay_10 * 9 / 10 + current / 10;
  failures = 0;
  failure_rate = u32 (rtt.failure_rate * 99) / 100;
}

unfoldable pub register_failure : Rtt → Rtt
register_failure rtt = record rtt {
  failures = u32 (rtt.failures + 1);
  failure_rate = u32 (u32 (rtt.failure_rate * 99) / 100 + 10000);
}
