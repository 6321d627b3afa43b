-- ===== src/Credentials/Policy.antt =====
-- internal/server/trap_ssh_auth_policy.go: which password of the SSH trap is accepted.
use Prim.Native.Nat.{bit_xor}
use zent_loop.Common.{
  ℕ, ◌+◌, ◌*◌, ◌%◌, ◌^◌, Bool, true, false, not, ◌&&◌, ◌||◌, List, [], ◌∷◌, ◌++◌, Bytes, bytes_eq,
  nat_eq, Option, none, some, ltb, leb, ◌==◌, if◌then◌else◌, length, codes,
}
use zent_loop.Credentials.{
  Store, normal, credential_status, establish_credential, source_credential_status,
  bind_source_credential,
}

-- FNV-1a on 32 bits.
unfoldable pub fnv_from : ℕ → Bytes → ℕ
fnv_from h [] = h
fnv_from h (c ∷ v) = fnv_from (bit_xor h c * 16777619 % 2 ^ 32) v

unfoldable pub stable_ssh_hash : Bytes → ℕ
unfolding fnv_from
stable_ssh_hash v = fnv_from 2166136261 v

unfoldable pub is_host_account : Bytes → List Bytes → Bool
is_host_account user [] = false
is_host_account user (account ∷ accounts) = (user == account) || is_host_account user accounts

abbrev pub host_accounts : List Bytes
host_accounts = codes "root" ∷ codes "admin" ∷ codes "svc-web" ∷ codes "svc-backup" ∷ []

unfoldable pub virtual_ssh_account_exists : Bytes → Bool
unfolding is_host_account
virtual_ssh_account_exists user = is_host_account (normal user) host_accounts

-- What the event store knows of the source; `Recurrence` is `store.SSHRecurrence`.
pub record Recurrence : Type 0 where
  pub low_and_slow : Bool
  pub connections : ℕ

pub record Profile : Type 0 where
  pub recent_accepted_users : List Bytes
  pub active_accepted_users : List Bytes
  pub unique_users : ℕ

abbrev pub unfit : Bytes → Bytes → Bool
unfit user password = (user == []) || (length password == 0) || ltb 256 (length password)

-- the least number of attempts, 0 for no limit in `max_tries`
abbrev pub threshold : Bytes → Bytes → ℕ → ℕ
threshold remote user max_tries =
    let n = 2 + stable_ssh_hash (remote ++ codes "|" ++ user) % 2 in
    if ltb 0 max_tries && ltb max_tries n then max_tries else n

unfoldable pub should_accept_trap_password : Bytes → Bytes → Bytes → ℕ → ℕ → Bool
should_accept_trap_password remote user password attempt max_tries =
    if unfit user password then false else leb (threshold remote user max_tries) attempt

unfoldable pub should_accept_recurring_probe : Recurrence → Bytes → Bytes → Bytes → ℕ → Bool
should_accept_recurring_probe recur remote user password attempt =
    if not (attempt == 1)
      || not recur.low_and_slow
      || ltb recur.connections 6
      || unfit user password
    then false
    else (recur.connections % 2 ^ 32 + stable_ssh_hash (remote ++ codes "|" ++ user)) % 2 ^ 32 % 3
      == 0

unfoldable pub should_accept_first_known_account : Bytes → Bytes → Bytes → ℕ → Bool
should_accept_first_known_account remote user password attempt =
    if not (attempt == 1) || unfit user password
    then false
    else stable_ssh_hash (remote ++ codes "|" ++ user ++ codes "|" ++ password) % 5 == 0

pub data Verdict : Type 0 where
  accepted_existing : Verdict
  accepted_new_slot : Verdict
  accepted_legacy_sticky : Verdict
  reject_invalid : Verdict
  reject_unknown_account : Verdict
  reject_source_conflict : Verdict
  reject_concurrent : Verdict
  reject_spray : Verdict
  reject_credential : Verdict
  reject_policy : Verdict
  reject_pool_busy : Verdict

-- The arguments of `trapCredentialDecision`, the answers of the event store, the times at which the
-- credential store reads the clock and whether its writes succeed.
pub record Attempt : Type 0 where
  pub remote : Bytes
  pub user : Bytes
  pub password : Bytes
  pub attempt : ℕ
  pub max_tries : ℕ
  pub profile : Profile
  pub recurrence : Recurrence
  pub source_at : ℕ
  pub status_at : ℕ
  pub establish_at : ℕ
  pub bind_at : ℕ
  pub established : Bool
  pub bound : Bool

unfoldable pub sticky_user : List Bytes → Bytes
unfolding virtual_ssh_account_exists
sticky_user [] = []
sticky_user (accepted ∷ users) =
    let later = sticky_user users in if virtual_ssh_account_exists accepted then accepted else later

unfoldable pub other_active : Bytes → List Bytes → Bool
other_active user [] = false
other_active user (active ∷ users) = not (active == user) || other_active user users

abbrev pub is_candidate : Bytes → Attempt → Bool
is_candidate user a =
    should_accept_first_known_account a.remote user a.password a.attempt
    || should_accept_trap_password a.remote user a.password a.attempt a.max_tries
    || should_accept_recurring_probe a.recurrence a.remote user a.password a.attempt

-- The checks before the credential store is asked.
unfoldable pub screen : Bytes → Attempt → Option Verdict
unfolding sticky_user other_active virtual_ssh_account_exists
screen user a =
    let sticky = sticky_user a.profile.recent_accepted_users in
    if unfit user a.password
    then some reject_invalid
    else if not (virtual_ssh_account_exists user)
    then some reject_unknown_account
    else if not (sticky == []) && not (user == sticky)
    then some reject_source_conflict
    else if other_active user a.profile.active_accepted_users
    then some reject_concurrent
    else none

module _ (mac : Bytes → Bytes → Bytes) where
  -- A new slot, which is bound to the source.
  abbrev pub bind_new : Bytes → Attempt → Verdict → Bool × Store → (Bool × Verdict) × Store
  bind_new user a verdict (true, s) =
      ((true, verdict), (bind_source_credential mac a.remote user a.password a.bind_at a.bound s).1)
  bind_new user a verdict (false, s) = ((false, reject_pool_busy), s)

  abbrev pub establish : Bytes → Attempt → Verdict → Store → (Bool × Verdict) × Store
  establish user a verdict s =
      bind_new user a verdict
        (establish_credential mac user a.password a.establish_at a.established s)

  -- A password that no slot of the account has.
  abbrev pub decide_new : Bytes → Attempt → Bool → Store → (Bool × Verdict) × Store
  decide_new user a known s =
      if (sticky_user a.profile.recent_accepted_users == user) && not known
      then establish user a accepted_legacy_sticky s
      else if leb 30 a.profile.unique_users
      then ((false, reject_spray), s)
      else if not (is_candidate user a)
      then ((false, if known then reject_credential else reject_policy), s)
      else establish user a accepted_new_slot s

  abbrev pub decide_status :
      Bytes → Attempt → Bool → (Bool × Bool) × Store → (Bool × Verdict) × Store
  decide_status user a true ((known, true), s) = ((true, accepted_existing), s)
  decide_status user a false ((known, true), s) = (
    (true, accepted_existing),
    (bind_source_credential mac a.remote user a.password a.bind_at a.bound s).1,
  )
  decide_status user a source_bound ((known, false), s) = decide_new user a known s

  abbrev pub decide_source : Bytes → Attempt → (Bool × Bool) × Store → (Bool × Verdict) × Store
  decide_source user a ((true, false), s) = ((false, reject_credential), s)
  decide_source user a ((true, true), s) =
      decide_status user a true (credential_status mac user a.password a.status_at s)
  decide_source user a ((false, matches), s) =
      decide_status user a false (credential_status mac user a.password a.status_at s)

  abbrev pub decide_screened : Bytes → Attempt → Option Verdict → Store → (Bool × Verdict) × Store
  decide_screened user a (some verdict) s = ((false, verdict), s)
  decide_screened user a none s =
      decide_source user a (source_credential_status mac a.remote user a.password a.source_at s)

  unfoldable pub trap_credential_decision : Attempt → Store → (Bool × Verdict) × Store
  trap_credential_decision a s =
      let user = normal a.user in decide_screened user a (screen user a) s
