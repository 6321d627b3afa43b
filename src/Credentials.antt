-- ===== src/Credentials.antt =====
-- internal/store/ssh_auth_reality.go: the passwords that the SSH trap lets an account have. A pool of
-- slots for each account and a binding for each source and account, both by HMAC fingerprint. `mac` is
-- the HMAC in hexadecimal; `persisted` tells whether the write of the state file succeeded. A time of 0
-- is the zero time. `sort.Slice` sorts up to twelve elements by insertion; above, its order among
-- equal times is open, and the model takes one.
pub mod Policy
pub mod Pools
pub mod Establish
pub mod Bindings
pub mod Bounds
pub mod Normal
pub mod Sources
pub mod Accepted
pub mod Sticky
pub mod Guard
mod Examples
use zent_loop.Common.{
  ℕ, zero, suc, ◌+◌, ◌-◌, ◌*◌, Bool, true, false, not, ◌&&◌, ◌||◌, List, [], ◌∷◌, ◌++◌, Bytes,
  bytes_eq, nat_eq, Option, none, some, ltb, leb, ◌==◌, if◌then◌else◌, Map, lookup, insert, remove,
  keep_entries, length, codes, to_lower, trim_space, bytes_beq,
}

pub record Slot : Type 0 where
  pub fingerprint : Bytes
  pub first_seen : ℕ
  pub last_seen : ℕ

pub record Binding : Type 0 where
  pub fingerprint : Bytes
  pub last_seen : ℕ

pub record Store : Type 0 where
  pub key : Bytes
  pub pools : Map Bytes (List Slot)
  pub bindings : Map Bytes Binding

abbrev pub pool_size : ℕ
pool_size = 8

abbrev pub minute : ℕ
minute = 60_000_000_000

abbrev pub rotate_after : ℕ
rotate_after = 45 * minute

abbrev pub binding_age : ℕ
binding_age = 30 * 24 * 60 * minute

abbrev pub max_bindings : ℕ
max_bindings = 4096

unfoldable pub normal : Bytes → Bytes
normal user = to_lower (trim_space user)

abbrev pub slots_or : Option (List Slot) → List Slot
slots_or none = []
slots_or (some slots) = slots

-- `s.sshCredentialPools[user]`, for a name in its normal form
abbrev pub pool : Bytes → Store → List Slot
pool user s = slots_or (lookup user s.pools)

abbrev pub with_pool : Bytes → List Slot → Store → Store
with_pool user slots s = record s { pools = insert user slots s.pools }

-- The first slot with the fingerprint was seen now.
unfoldable pub touch : Bytes → ℕ → List Slot → Option (List Slot)
touch fp now [] = none
touch fp now (slot ∷ slots) =
    let later = touch fp now slots in
    if slot.fingerprint == fp
    then some (record slot { last_seen = now } ∷ slots)
    else elim later [ none ↦ none | some touched ↦ some (slot ∷ touched) ]

unfoldable pub place : Slot → List Slot → List Slot
place slot [] = slot ∷ []
place slot (next ∷ slots) =
    let later = place slot slots in
    if leb slot.last_seen next.last_seen then slot ∷ next ∷ slots else next ∷ later

unfoldable pub by_age : List Slot → List Slot
unfolding place
by_age [] = []
by_age (slot ∷ slots) = place slot (by_age slots)

abbrev pub new_slot : Bytes → ℕ → Slot
new_slot fp now = record { fingerprint = fp; first_seen = now; last_seen = now }

abbrev pub is_idle : ℕ → Slot → Bool
is_idle now slot = (slot.last_seen == 0) || leb rotate_after (now - slot.last_seen)

-- The slots sorted by age: the oldest makes room if it has been idle long enough.
abbrev pub rotate : Bytes → Bytes → ℕ → Bool → List Slot → Store → Bool × Store
rotate user fp now persisted [] s = (false, s)
rotate user fp now persisted (oldest ∷ slots) s =
    if is_idle now oldest
    then (persisted, with_pool user (new_slot fp now ∷ slots) s)
    else (false, s)

-- A password whose fingerprint no slot has.
abbrev pub add_slot : Bytes → Bytes → ℕ → Bool → Store → Bool × Store
add_slot user fp now persisted s =
    if ltb (length (pool user s)) pool_size
    then (persisted, with_pool user (pool user s ++ new_slot fp now ∷ []) s)
    else rotate user fp now persisted (by_age (pool user s)) s

abbrev pub use_slot : Bytes → Bytes → ℕ → Bool → Option (List Slot) → Store → Bool × Store
use_slot user fp now persisted none s = add_slot user fp now persisted s
use_slot user fp now persisted (some touched) s = (persisted, with_pool user touched s)

unfoldable pub binding_key : Bytes → Bytes → Bytes
binding_key source user = normal source ++ b'|' ∷ normal user

module _ (mac : Bytes → Bytes → Bytes) where
  unfoldable pub fingerprint : Store → Bytes → Bytes → Bytes
  fingerprint s user password =
      if (s.key == []) || (user == []) || (password == [])
      then []
      else mac s.key (normal user ++ 0 ∷ password)

  abbrev pub see_slot : Bytes → Option (List Slot) → Store → (Bool × Bool) × Store
  see_slot user none s = ((true, false), s)
  see_slot user (some touched) s = ((true, true), with_pool user touched s)

  unfoldable pub credential_status : Bytes → Bytes → ℕ → Store → (Bool × Bool) × Store
  credential_status name password now s =
      let user = normal name in
      let got = fingerprint s user password in
      if length (pool user s) == 0
      then ((false, false), s)
      else if got == []
      then ((true, false), s)
      else see_slot user (touch got now (pool user s)) s

  unfoldable pub establish_credential : Bytes → Bytes → ℕ → Bool → Store → Bool × Store
  establish_credential name password now persisted s =
      let user = normal name in
      let fp = fingerprint s user password in
      if (user == []) || (length password == 0) || ltb 256 (length password)
      then (false, s)
      else if fp == []
      then (false, s)
      else use_slot user fp now persisted (touch fp now (pool user s)) s

  abbrev pub check_binding : Bytes → Bytes → ℕ → Option Binding → Store → (Bool × Bool) × Store
  check_binding key got now none s = ((false, false), s)
  check_binding key got now (some binding) s =
      if got == []
      then ((true, false), s)
      else if binding.fingerprint == got
      then (
        (true, true),
        record s { bindings = insert key (record binding { last_seen = now }) s.bindings },
      )
      else ((true, false), s)

  unfoldable pub source_credential_status :
      Bytes → Bytes → Bytes → ℕ → Store → (Bool × Bool) × Store
  source_credential_status source user password now s =
      let key = binding_key source user in
      check_binding key (fingerprint s user password) now (lookup key s.bindings) s

-- Bindings are kept for thirty days after they were last seen.
abbrev pub is_current : ℕ → Binding → Bool
is_current now b = (b.last_seen == 0) || not (ltb (b.last_seen + binding_age) now)

unfoldable pub place_row : Bytes × ℕ → List (Bytes × ℕ) → List (Bytes × ℕ)
place_row row [] = row ∷ []
place_row row (next ∷ rows) =
    let later = place_row row rows in if leb row.1 next.1 then row ∷ next ∷ rows else next ∷ later

-- The keys with their times, the oldest first.
unfoldable pub rows_by_age : Map Bytes Binding → List (Bytes × ℕ)
unfolding place_row
rows_by_age [] = []
rows_by_age ((k, b) ∷ m) = place_row (k, b.last_seen) (rows_by_age m)

unfoldable pub drop_rows : ℕ → List (Bytes × ℕ) → Map Bytes Binding → Map Bytes Binding
drop_rows zero rows m = m
drop_rows (suc n) [] m = m
drop_rows (suc n) (row ∷ rows) m = drop_rows n rows (remove row.0 m)

unfoldable pub cap_bindings : Map Bytes Binding → Map Bytes Binding
unfolding rows_by_age drop_rows
cap_bindings m = drop_rows (length m - max_bindings) (rows_by_age m) m

abbrev pub conflicts : Bytes → Option Binding → Bool
conflicts fp none = false
conflicts fp (some existing) = not (existing.fingerprint == fp)

abbrev pub bound_store : Bytes → Bytes → ℕ → Store → Store
bound_store key fp now s = record s {
  bindings = cap_bindings (
      keep_entries (is_current now)
        (insert key (record { fingerprint = fp; last_seen = now }) s.bindings));
}

module _ (mac : Bytes → Bytes → Bytes) where
  unfoldable pub bind_source_credential : Bytes → Bytes → Bytes → ℕ → Bool → Store → Bool × Store
  unfolding cap_bindings
  bind_source_credential source user password now persisted s =
      let key = binding_key source user in
      let fp = fingerprint mac s user password in
      if key == codes "|"
      then (false, s)
      else if fp == []
      then (false, s)
      else if conflicts fp (lookup key s.bindings)
      then (false, s)
      else (persisted, bound_store key fp now s)
