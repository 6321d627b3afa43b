-- ===== src/Tarpit.antt =====
-- internal/store/ip_intelligence.go: `SSHTarpitDelay`, the delay of the SSH banner for a source that
-- connects again and again. `stamp` is `now.Format("150405")`; times and delays are in nanoseconds.
pub mod Bounds
mod Examples
use zent_loop.Common.{
  ℕ, suc, ◌+◌, ◌-◌, ◌*◌, ◌/◌, ◌%◌, Bool, true, false, not, ◌&&◌, List, [], ◌∷◌, ◌++◌, Bytes,
  bytes_eq, nat_eq, leb, ltb, ◌==◌, if◌then◌else◌,
}
use zent_loop.Credentials.Policy.{fnv_from}

-- The fields of a session that the delay reads.
pub record SshSession : Type 0 where
  pub ip : Bytes
  pub first_seen : ℕ

abbrev pub millisecond : ℕ
millisecond = 1_000_000

abbrev pub second : ℕ
second = 1000 * millisecond

abbrev pub minute : ℕ
minute = 60 * second

-- The sessions of the source that began within the last minute.
unfoldable pub recent_connections : Bytes → ℕ → List SshSession → ℕ
recent_connections ip now [] = 0
recent_connections ip now (ss ∷ rest) =
    let others = recent_connections ip now rest in
    if (ss.ip == ip) && not (ltb ss.first_seen (now - minute)) && not (ltb now ss.first_seen)
    then suc others
    else others

unfoldable pub tarpit_base : ℕ → ℕ
tarpit_base connections =
    if leb 30 connections
    then 2500 * millisecond
    else if leb 16 connections
    then 1200 * millisecond
    else if leb 8 connections
    then 400 * millisecond
    else 0

abbrev pub jittered : ℕ → ℕ → ℕ
jittered base h =
    let delay = base * (85 + h % 31) / 100 in if ltb (3 * second) delay then 3 * second else delay

unfoldable pub ssh_tarpit_delay : Bytes → ℕ → Bytes → List SshSession → ℕ
unfolding recent_connections tarpit_base fnv_from
ssh_tarpit_delay ip now stamp sessions =
    let base = tarpit_base (recent_connections ip now sessions) in
    if ip == []
    then 0
    else if base == 0
    then 0
    else jittered base (fnv_from 2166136261 (ip ++ stamp))
