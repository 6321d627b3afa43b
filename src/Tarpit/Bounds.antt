-- ===== src/Tarpit/Bounds.antt =====
-- How long the banner is delayed.
use zent_loop.Common.{
  ℕ, ◌*◌, ◌≤◌, false, List, [], Bytes, bytes_eq, nat_eq, ◌==◌, ◌++◌, ◌≡◌, ◌≢◌, arith, if_rule,
  bytes_beq_iff,
}
use zent_loop.Tarpit.{
  SshSession, recent_connections, tarpit_base, jittered, ssh_tarpit_delay, second,
}
use zent_loop.Credentials.Policy.{fnv_from}

-- The delay is within 85 and 115 percent of the base.
abbrev pub Near : ℕ → ℕ → Type 0
Near base delay = (85 * base ≤ 100 * delay) × (100 * delay ≤ 115 * base)

jittered-Near : (n h : ℕ) → Near (tarpit_base n) (jittered (tarpit_base n) h)
unfolding tarpit_base
jittered-Near n h = ground arith

abbrev Bounded : ℕ → ℕ → Type 0
Bounded base delay = Near base delay × (delay ≤ 3 * second)

-- The banner of a source is delayed by 85 to 115 percent of what its number of connections within the
-- last minute calls for: nothing below 8, 0.4 seconds from 8, 1.2 seconds from 16 and 2.5 seconds from
-- 30 on. So it is never delayed by more than three seconds.
pub ssh_tarpit_delay_lem :
    (ip : Bytes) (now : ℕ) (stamp : Bytes) (sessions : List SshSession)
    → ip ≢ []
    → Near
        (tarpit_base (recent_connections ip now sessions))
        (ssh_tarpit_delay ip now stamp sessions)
      × (ssh_tarpit_delay ip now stamp sessions ≤ 3 * second)
unfolding ssh_tarpit_delay
ssh_tarpit_delay_lem ip now stamp sessions named =
    let n = recent_connections ip now sessions in
    let h = fnv_from 2166136261 (ip ++ stamp) in
    let known : (ip == []) ≡ false = ground (arith, bytes_beq_iff ip []) in
    rw known (
      if_rule (Bounded (tarpit_base n)) (tarpit_base n == 0) 0 (jittered (tarpit_base n) h)
        (λ none_due. ground arith) (λ due. (jittered-Near n h, ground arith)))
