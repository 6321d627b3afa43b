-- ===== src/Credentials/Bounds.antt =====
-- The sizes of the pools and of the table of bindings.
use zent_loop.Common.{
  ℕ, ◌≤◌, Bool, true, false, List, [], ◌∷◌, ◌++◌, Bytes, bytes_eq, nat_eq, Option, none, some, ltb,
  ◌==◌, lookup, insert, length, ◌≡◌, arith, inl, inr, Bool-cases, Option-cases, lookup-insert,
  length-append, Map, Distinct, insert-Distinct, keep_entries-Distinct,
}
use zent_loop.Credentials.{
  Slot, Binding, Store, touch, by_age, pool, is_idle, is_current, new_slot, with_pool, normal,
  fingerprint, pool_size, max_bindings, credential_status, establish_credential, use_slot, rotate,
  see_slot, source_credential_status, check_binding, bind_source_credential, bound_store,
  binding_key,
}
use zent_loop.Credentials.Pools.{touch-some, length-by_age}
use zent_loop.Credentials.Bindings.{length-cap_bindings, cap_bindings-Distinct}
use zent_loop.Credentials.Policy.{
  Attempt, Verdict, accepted_legacy_sticky, accepted_new_slot, trap_credential_decision,
  decide_screened, decide_source, decide_status, establish, bind_new, screen,
}

-- No pool has more than eight slots, no more than 4096 sources are bound, and none twice.
abbrev pub IsValid : Store → Type 0
IsValid s =
    ((user : Bytes) → length (pool user s) ≤ pool_size)
    × (length s.bindings ≤ max_bindings)
    × Distinct s.bindings

pub length-insert_of_some :
    (k : Bytes) (v w : Binding) (m : Map Bytes Binding)
    → lookup k m ≡ some w
    → length (insert k v m) ≡ length m
unfolding lookup insert
length-insert_of_some k v w [] h = cc
length-insert_of_some k v w ((j, x) ∷ m) h = ground (arith, length-insert_of_some k v w m)

with_pool-IsValid :
    (user : Bytes) (l : List Slot) (s : Store)
    → length l ≤ pool_size
    → IsValid s
    → IsValid (with_pool user l s)
with_pool-IsValid user l s short v = (
  λ other. elim (Bool-cases (user == other)) [
    | inl same ↦ rw (lookup-insert, same) short
    | inr differ ↦ rw (lookup-insert, differ) (v.0 other)
  ],
  v.1,
  v.2,
)

rotate-IsValid :
    (user fp : Bytes) (now : ℕ) (persisted : Bool) (l : List Slot) (s : Store)
    → length l ≤ pool_size
    → IsValid s
    → IsValid (rotate user fp now persisted l s).1
rotate-IsValid user fp now persisted [] s short v = v
rotate-IsValid user fp now persisted (x ∷ l) s short v = elim (Bool-cases (is_idle now x)) [
  | inl idle ↦ rw idle (with_pool-IsValid user (new_slot fp now ∷ l) s (omega arith) v)
  | inr busy ↦ rw busy v
]

use_slot-IsValid :
    (user fp : Bytes) (now : ℕ) (persisted : Bool) (s : Store)
    → IsValid s
    → IsValid (use_slot user fp now persisted (touch fp now (pool user s)) s).1
use_slot-IsValid user fp now persisted s v = elim (Option-cases (touch fp now (pool user s))) [
  | inr (t, found) ↦
      let (has, same, long) = touch-some fp now (pool user s) t found in
      rw found (with_pool-IsValid user t s (rw long (v.0 user)) v)
  | inl gone ↦ rw gone (elim (Bool-cases (ltb (length (pool user s)) pool_size)) [
    | inl room ↦ rw room (
        with_pool-IsValid user (pool user s ++ new_slot fp now ∷ []) s
          (rw length-append (ground arith)) v)
    | inr full ↦ rw full (
        rotate-IsValid user fp now persisted (by_age (pool user s)) s (rw length-by_age (v.0 user))
          v)
  ])
]

bound_store-IsValid :
    (key fp : Bytes) (now : ℕ) (s : Store) → IsValid s → IsValid (bound_store key fp now s)
bound_store-IsValid key fp now s v =
    let new : Binding = record { fingerprint = fp; last_seen = now } in
    let kept =
      keep_entries-Distinct (is_current now) (insert key new s.bindings)
        (insert-Distinct key new s.bindings v.2) in
    (v.0, length-cap_bindings _ kept, cap_bindings-Distinct _ kept)

module _ (mac : Bytes → Bytes → Bytes) where
  establish_credential-IsValid :
      (name password : Bytes) (now : ℕ) (persisted : Bool) (s : Store)
      → IsValid s
      → IsValid (establish_credential mac name password now persisted s).1
  unfolding establish_credential
  establish_credential-IsValid name password now persisted s v =
      let fp = fingerprint mac s (normal name) password in
      ground (arith, use_slot-IsValid (normal name) fp now persisted s v)

  see_slot-IsValid :
      (user got : Bytes) (now : ℕ) (s : Store)
      → IsValid s
      → IsValid (see_slot mac user (touch got now (pool user s)) s).1
  see_slot-IsValid user got now s v = elim (Option-cases (touch got now (pool user s))) [
    | inl gone ↦ rw gone v
    | inr (t, found) ↦
        let (has, same, long) = touch-some got now (pool user s) t found in
        rw found (with_pool-IsValid user t s (rw long (v.0 user)) v)
  ]

  credential_status-IsValid :
      (name password : Bytes) (now : ℕ) (s : Store)
      → IsValid s
      → IsValid (credential_status mac name password now s).1
  unfolding credential_status
  credential_status-IsValid name password now s v =
      let got = fingerprint mac s (normal name) password in
      ground (arith, see_slot-IsValid (normal name) got now s v)

  check_binding-IsValid :
      (key got : Bytes) (now : ℕ) (b : Binding) (s : Store)
      → lookup key s.bindings ≡ some b
      → IsValid s
      → IsValid (check_binding mac key got now (some b) s).1
  check_binding-IsValid key got now b s found v =
      let seen : Binding = record b { last_seen = now } in
      ground (
        arith,
        length-insert_of_some key seen b s.bindings found,
        insert-Distinct key seen s.bindings v.2,
      )

  source_credential_status-IsValid :
      (source user password : Bytes) (now : ℕ) (s : Store)
      → IsValid s
      → IsValid (source_credential_status mac source user password now s).1
  unfolding source_credential_status
  source_credential_status-IsValid source user password now s v =
      let key = binding_key source user in
      let got = fingerprint mac s user password in
      elim (Option-cases (lookup key s.bindings)) [
        | inl gone ↦ rw gone v
        | inr (b, found) ↦ rw found (check_binding-IsValid key got now b s found v)
      ]

  bind_source_credential-IsValid :
      (source user password : Bytes) (now : ℕ) (persisted : Bool) (s : Store)
      → IsValid s
      → IsValid (bind_source_credential mac source user password now persisted s).1
  unfolding bind_source_credential
  bind_source_credential-IsValid source user password now persisted s v =
      let fp = fingerprint mac s user password in
      ground (arith, bound_store-IsValid (binding_key source user) fp now s v)

  bind_new-IsValid :
      (user : Bytes) (a : Attempt) (verdict : Verdict) (p : Bool × Store)
      → IsValid p.1
      → IsValid (bind_new mac user a verdict p).1
  bind_new-IsValid user a verdict (true, s) v =
      bind_source_credential-IsValid a.remote user a.password a.bind_at a.bound s v
  bind_new-IsValid user a verdict (false, s) v = v

  establish-IsValid :
      (user : Bytes) (a : Attempt) (verdict : Verdict) (s : Store)
      → IsValid s
      → IsValid (establish mac user a verdict s).1
  establish-IsValid user a verdict s v =
      bind_new-IsValid user a verdict _
        (establish_credential-IsValid user a.password a.establish_at a.established s v)

  decide_status-IsValid :
      (user : Bytes) (a : Attempt) (bound : Bool) (p : (Bool × Bool) × Store)
      → IsValid p.1
      → IsValid (decide_status mac user a bound p).1
  decide_status-IsValid user a true ((known, true), s) v = v
  decide_status-IsValid user a false ((known, true), s) v =
      bind_source_credential-IsValid a.remote user a.password a.bind_at a.bound s v
  decide_status-IsValid user a bound ((known, false), s) v = ground (
    arith,
    establish-IsValid user a accepted_legacy_sticky s v,
    establish-IsValid user a accepted_new_slot s v,
  )

  decide_source-IsValid :
      (user : Bytes) (a : Attempt) (p : (Bool × Bool) × Store)
      → IsValid p.1
      → IsValid (decide_source mac user a p).1
  decide_source-IsValid user a ((true, false), s) v = v
  decide_source-IsValid user a ((true, true), s) v =
      decide_status-IsValid user a true _
        (credential_status-IsValid user a.password a.status_at s v)
  decide_source-IsValid user a ((false, matches), s) v =
      decide_status-IsValid user a false _
        (credential_status-IsValid user a.password a.status_at s v)

  decide_screened-IsValid :
      (user : Bytes) (a : Attempt) (o : Option Verdict) (s : Store)
      → IsValid s
      → IsValid (decide_screened mac user a o s).1
  decide_screened-IsValid user a none s v =
      decide_source-IsValid user a _
        (source_credential_status-IsValid a.remote user a.password a.source_at s v)
  decide_screened-IsValid user a (some verdict) s v = v

  -- A decision keeps the bounds: from a store whose pools have at most eight slots and whose table binds
  -- at most 4096 sources, none twice, it leads to such a store.
  pub trap_credential_decision-IsValid :
      (a : Attempt) (s : Store) → IsValid s → IsValid (trap_credential_decision mac a s).1
  unfolding trap_credential_decision
  trap_credential_decision-IsValid a s v =
      decide_screened-IsValid (normal a.user) a (screen (normal a.user) a) s v
