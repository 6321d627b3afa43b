-- ===== src/Admin/Throttle.antt =====
-- The table of failed logins, and the delays.
use mathlib.Core.Option.{some-injective}
use native.Mathlib.Nat.{zero-add, le_refl, le_trans}
use zent_loop.Common.{
  Option, ◌<◌, ◌⊎◌, ◌*◌, ◌^◌, lookup-keep_entries, lookup-insert_self, lookup-remove_ne, Has-here,
  Has-later, ℕ, zero, suc, ◌+◌, ◌-◌, ◌≤◌, [], ◌∷◌, Bytes, bytes_eq, bytes_beq_iff, none, some, ◌≡◌,
  ◌≢◌, refl, ◌∙◌, arith, ◌==◌, nat_eq, ltb, length, Map, lookup, insert, remove, keep_entries, Has,
  Distinct, length-remove-lt, remove-Distinct, insert-Distinct, keep_entries-Distinct, Bool-cases,
  Option-cases, inl, inr, if_rule, ltb→lt,
}
use zent_loop.Admin.{
  AuthFailure, AdminServer, max_auth_failures, failure_window, known_ip, failure_of, next_failure,
  first_other, drop_others, trim_failures, is_recent, failure_delay, record_admin_auth_failure,
}

-- Without another key the map has one entry at most.
first_other-none :
    (ip : Bytes) (m : Map Bytes AuthFailure) → Distinct m → first_other ip m ≡ none → length m ≤ 1
unfolding first_other
first_other-none ip [] d h = omega arith
first_other-none ip ((key, f) ∷ []) d h = omega arith
first_other-none ip ((key, f) ∷ (j, g) ∷ m) d h = absurd (
    unfold lookup in
    ground (arith, d.0, bytes_beq_iff key ip, bytes_beq_iff j ip, bytes_beq_iff j key))

first_other-some :
    (ip key : Bytes) (m : Map Bytes AuthFailure)
    → first_other ip m ≡ some key
    → Has key m × (key ≢ ip)
unfolding first_other
first_other-some ip key [] h = cc
first_other-some ip key ((j, f) ∷ m) h = elim (Bool-cases (j == ip)) [
  | inl same ↦
      let later = first_other-some ip key m (rw same at h) in (Has-later key j f m later.0, later.1)
  | inr other ↦
      let here : j ≡ key = some-injective _ _ (rw other at h) in
      (rw (← here) (Has-here j f m), λ p. ground (arith, bytes_beq_iff j ip))
]

drop_others_bound :
    (fuel : ℕ) (ip : Bytes) (m : Map Bytes AuthFailure)
    → length m ≤ fuel
    → Distinct m
    → length (drop_others fuel ip m) ≤ max_auth_failures
unfolding drop_others
drop_others_bound zero ip m h d = omega arith
drop_others_bound (suc fuel) ip m h d = elim (Bool-cases (ltb max_auth_failures (length m))) [
  | inr room ↦ rw room (ground arith)
  | inl full ↦ rw full (elim (Option-cases (first_other ip m)) [
    | inl e ↦ absurd (omega (arith, first_other-none ip m d e, ltb→lt _ _ full))
    | inr (key, e) ↦
        rw (e, drop_others)
          (drop_others_bound fuel ip (remove key m)
            (omega (arith, length-remove-lt key m (first_other-some ip key m e).0))
            (remove-Distinct key m d))
  ])
]

drop_others_self :
    (fuel : ℕ) (ip : Bytes) (m : Map Bytes AuthFailure)
    → lookup ip (drop_others fuel ip m) ≡ lookup ip m
unfolding drop_others
drop_others_self zero ip m = refl
drop_others_self (suc fuel) ip m = elim (Bool-cases (ltb max_auth_failures (length m))) [
  | inr room ↦ rw room refl
  | inl full ↦ rw full (elim (Option-cases (first_other ip m)) [
    | inl e ↦ rw (e, drop_others) refl
    | inr (key, e) ↦
        rw (e, drop_others)
          (drop_others_self fuel ip (remove key m)
            ∙ lookup-remove_ne ip key m (first_other-some ip key m e).1)
  ])
]

module _ (now : ℕ) (ip : Bytes) (m : Map Bytes AuthFailure) (d : Distinct m) where
  trim_failures_bound : length (trim_failures now ip m) ≤ max_auth_failures
  unfolding trim_failures
  trim_failures_bound =
      let kept = keep_entries (is_recent now) m in
      if_rule (λ (x : Map Bytes AuthFailure). length x ≤ max_auth_failures)
        (ltb max_auth_failures (length m)) (drop_others (length kept) ip kept) m
        (λ _.
          drop_others_bound (length kept) ip kept (omega arith)
            (keep_entries-Distinct (is_recent now) m d))
        (λ room. ground arith)

  trim_failures_self :
      (f : AuthFailure)
      → lookup ip m ≡ some f
      → f.last ≡ now
      → lookup ip (trim_failures now ip m) ≡ some f
  unfolding trim_failures
  trim_failures_self f e fresh =
      let kept = keep_entries (is_recent now) m in
      if_rule (λ (x : Map Bytes AuthFailure). lookup ip x ≡ some f)
        (ltb max_auth_failures (length m)) (drop_others (length kept) ip kept) m
        (λ _.
          drop_others_self (length kept) ip kept
          ∙ lookup-keep_entries (is_recent now) ip f m e (ground arith))
        (λ _. e)

next_failure_last : (now : ℕ) (f : AuthFailure) → (next_failure now f).last ≡ now
next_failure_last now f = ground arith

-- The entry of a source after one more failure: the count goes on from the one in the table, or begins
-- again after more than ten quiet minutes.
abbrev pub Counted : Option AuthFailure → ℕ → AuthFailure → Type 0
Counted none now f = (f.count ≡ 1) × (f.last ≡ now)
Counted (some g) now f =
    (f.last ≡ now)
    × (((0 < g.last) × (failure_window < now - g.last) × (f.count ≡ 1))
        ⊎ (((g.last ≡ 0) ⊎ (now - g.last ≤ failure_window)) × (f.count ≡ g.count + 1)))

-- The delay after so many failures, in nanoseconds: none after the first, then 150 milliseconds, doubled
-- with every failure up to 2.4 seconds.
abbrev pub Delayed : ℕ → ℕ → Type 0
Delayed count delay =
    ((count ≤ 1) × (delay ≡ 0))
    ⊎ ((2 ≤ count) × (count ≤ 5) × (delay ≡ 150_000_000 * 2 ^ (count - 2)))
    ⊎ ((6 ≤ count) × (delay ≡ 2_400_000_000))

failure_or-Counted :
    (now : ℕ) (o : Option AuthFailure)
    → Counted o now
        (next_failure now (elim o [ none ↦ record { count = 0; last = 0 } | some f ↦ f ]))
failure_or-Counted now none = (ground arith, ground arith)
failure_or-Counted now (some g) = (next_failure_last now g, ground arith)

next_failure-Counted :
    (now : ℕ) (ip : Bytes) (s : AdminServer)
    → Counted (lookup ip s.failures) now (next_failure now (failure_of ip s))
next_failure-Counted now ip s = failure_or-Counted now (lookup ip s.failures)

failure_delay-Delayed : (n : ℕ) → Delayed n (failure_delay n)
unfolding failure_delay
failure_delay-Delayed zero = inl (omega arith, refl)
failure_delay-Delayed (suc zero) = inl (omega arith, refl)
failure_delay-Delayed (suc (suc zero)) = inr (inl (omega arith, omega arith, refl))
failure_delay-Delayed (suc (suc (suc zero))) = inr (inl (omega arith, omega arith, refl))
failure_delay-Delayed (suc (suc (suc (suc zero)))) = inr (inl (omega arith, omega arith, refl))
failure_delay-Delayed (suc (suc (suc (suc (suc zero))))) =
    inr (inl (omega arith, omega arith, refl))
failure_delay-Delayed (suc (suc (suc (suc (suc (suc n)))))) = inr (inr (omega arith, ground arith))

-- In a table without a key twice, a failed login counts: afterwards the entry of the source has one
-- failure more than before, or the first one after ten quiet minutes or without an entry, and the present
-- time; the table holds at most 2048 sources; and the delay is none after the first failure, then 150
-- milliseconds, doubled with every further one up to 2.4 seconds.
pub record_admin_auth_failure_lem :
    (ip : Bytes) (now : ℕ) (s : AdminServer)
    → Distinct s.failures
    → let (delay, t) = record_admin_auth_failure ip now s in
      (f : AuthFailure) × (lookup (known_ip ip) t.failures ≡ some f)
      × Counted (lookup (known_ip ip) s.failures) now f
      × (length t.failures ≤ max_auth_failures)
      × Delayed f.count delay
unfolding record_admin_auth_failure
record_admin_auth_failure_lem ip now s d =
    let known = known_ip ip in
    let f = next_failure now (failure_of known s) in
    let m = insert known f s.failures in
    let dm = insert-Distinct known f s.failures d in
    (
      f,
      trim_failures_self now known m dm f (lookup-insert_self known f s.failures)
          (next_failure_last now (failure_of known s)),
      next_failure-Counted now known s,
      trim_failures_bound now known m dm,
      failure_delay-Delayed f.count,
    )

failure_delay_step : (n : ℕ) → failure_delay n ≤ failure_delay (suc n)
unfolding failure_delay
failure_delay_step zero = omega arith
failure_delay_step (suc zero) = omega arith
failure_delay_step (suc (suc zero)) = omega arith
failure_delay_step (suc (suc (suc zero))) = omega arith
failure_delay_step (suc (suc (suc (suc zero)))) = omega arith
failure_delay_step (suc (suc (suc (suc (suc zero))))) = omega arith
failure_delay_step (suc (suc (suc (suc (suc (suc n)))))) = ground arith

failure_delay_later : (a k : ℕ) → failure_delay a ≤ failure_delay (k + a)
failure_delay_later a zero = rw zero-add (le_refl _)
failure_delay_later a (suc k) =
    let e : suc k + a ≡ suc (k + a) = omega arith in
    rw e (le_trans (failure_delay_later a k) (failure_delay_step (k + a)))

failure_delay_bound : (n : ℕ) → failure_delay n ≤ 2_400_000_000
unfolding failure_delay
failure_delay_bound zero = omega arith
failure_delay_bound (suc zero) = omega arith
failure_delay_bound (suc (suc zero)) = omega arith
failure_delay_bound (suc (suc (suc zero))) = omega arith
failure_delay_bound (suc (suc (suc (suc zero)))) = omega arith
failure_delay_bound (suc (suc (suc (suc (suc zero))))) = omega arith
failure_delay_bound (suc (suc (suc (suc (suc (suc n)))))) = ground arith

-- More failures never make the delay shorter, and it never passes 2.4 seconds.
pub failure_delay_mono :
    (a b : ℕ) → a ≤ b → (failure_delay a ≤ failure_delay b) × (failure_delay b ≤ 2_400_000_000)
failure_delay_mono a b h =
    let e : b - a + a ≡ b = omega arith in
    (rw e at (failure_delay_later a (b - a)), failure_delay_bound b)
