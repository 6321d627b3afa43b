-- ===== src/Credentials/Examples.antt =====
-- Tests of the credential policy, and its theorems at a concrete store. The HMAC is replaced by the key
-- before the text.
use zent_loop.Common.{
  [], ◌++◌, Bytes, bytes_eq, codes, none, ◌≡◌, ◌≢◌, refl, true, false, arith, lookup, insert,
  bytes_beq, ◌∷◌, to_lower, trim_space, trim_right, trim_left, is_space, keep_entries, remove, hang,
  lower_byte,
}
use zent_loop.Credentials.{
  Store, normal, pool, fingerprint, credential_status, establish_credential,
  source_credential_status, touch, bind_source_credential, binding_key, by_age, cap_bindings,
  drop_rows, place, place_row, rows_by_age,
}
use zent_loop.Credentials.Policy.{
  Attempt, trap_credential_decision, screen, accepted_existing, accepted_new_slot, stable_ssh_hash,
  should_accept_first_known_account, should_accept_trap_password, fnv_from, is_host_account,
  other_active, should_accept_recurring_probe, sticky_user, virtual_ssh_account_exists,
}
use zent_loop.Credentials.Pools.{has_recent}
use zent_loop.Credentials.Bounds.{IsValid, trap_credential_decision-IsValid}
use zent_loop.Credentials.Sticky.{accepted_again, accepted_binds}
use zent_loop.Credentials.Guard.{Allowed, trap_credential_decision-Allowed}

abbrev sign : Bytes → Bytes → Bytes
sign key v = key ++ v

abbrev new_host : Store
new_host = record { key = codes "k"; pools = []; bindings = [] }

abbrev third_try : Attempt
third_try = record {
  remote = codes "192.0.2.7";
  user = codes "Root";
  password = codes "toor";
  attempt = 3;
  max_tries = 6;
  profile = record { recent_accepted_users = []; active_accepted_users = []; unique_users = 1 };
  recurrence = record { low_and_slow = false; connections = 0 };
  source_at = 5;
  status_at = 6;
  establish_at = 7;
  bind_at = 8;
  established = true;
  bound = true;
}

-- The FNV-1a test vector for "a".
hash_of_a : stable_ssh_hash (codes "a") ≡ 3826002220
unfolding stable_ssh_hash
hash_of_a = refl

accepted_third : (trap_credential_decision sign third_try new_host).0 ≡ (true, accepted_new_slot)
unfolding trap_credential_decision screen bytes_beq normal to_lower trim_space trim_right trim_left
    is_space source_credential_status lookup credential_status should_accept_first_known_account
    should_accept_trap_password stable_ssh_hash establish_credential fingerprint touch insert
    keep_entries remove hang lower_byte fnv_from is_host_account other_active
    should_accept_recurring_probe sticky_user virtual_ssh_account_exists bind_source_credential
    binding_key by_age cap_bindings drop_rows place place_row rows_by_age
accepted_third = refl

accepted : (trap_credential_decision sign third_try new_host).0.0 ≡ true
accepted = rw accepted_third refl

new_host-IsValid : IsValid new_host
unfolding lookup
new_host-IsValid = (λ user. omega arith, omega arith, tt)

trap_credential_decision-IsValid_example :
    IsValid (trap_credential_decision sign third_try new_host).1
trap_credential_decision-IsValid_example =
    trap_credential_decision-IsValid sign third_try new_host new_host-IsValid

trap_credential_decision-Allowed_example : Allowed (normal (codes "Root")) third_try
trap_credential_decision-Allowed_example =
    trap_credential_decision-Allowed sign third_try new_host accepted

abbrev first_try : Attempt
first_try = record third_try { attempt = 1; source_at = 20; status_at = 21; bind_at = 22 }

first_clear : screen (normal (codes "Root")) first_try ≡ none
unfolding screen bytes_beq normal to_lower trim_space trim_right trim_left is_space hang lower_byte
    is_host_account other_active sticky_user virtual_ssh_account_exists
first_clear = refl

accepted_again_example :
    (trap_credential_decision sign first_try (trap_credential_decision sign third_try new_host).1).0
    ≡ (true, accepted_existing)
accepted_again_example =
    accepted_again sign third_try first_try new_host accepted (refl, refl, refl) first_clear

abbrev other_try : Attempt
other_try = record first_try { password = codes "123456" }

other_print :
    fingerprint sign new_host (normal (codes "Root")) (codes "123456")
    ≢ fingerprint sign new_host (normal (codes "Root")) (codes "toor")
unfolding fingerprint bytes_beq normal to_lower trim_space trim_right trim_left is_space hang
    lower_byte
other_print e = cc

accepted_binds_example :
    (trap_credential_decision sign other_try
      (trap_credential_decision sign third_try new_host).1).0.0
    ≡ false
accepted_binds_example =
    accepted_binds sign third_try other_try new_host accepted (omega arith) refl refl other_print

granted : (establish_credential sign (codes "root") (codes "toor") 9 true new_host).0 ≡ true
unfolding establish_credential fingerprint bytes_beq normal to_lower trim_space trim_right trim_left
    is_space hang lower_byte lookup touch by_age
granted = refl

-- A password that is refused because the state cannot be written has its slot all the same.
refused_unwritten :
    (establish_credential sign (codes "root") (codes "toor") 9 false new_host).0 ≡ false
unfolding establish_credential fingerprint bytes_beq normal to_lower trim_space trim_right trim_left
    is_space hang lower_byte lookup touch by_age
refused_unwritten = refl

known_unwritten :
    (credential_status sign
      (codes "root")
      (codes "toor")
      80
      (establish_credential sign (codes "root") (codes "toor") 9 false new_host).1).0
    ≡ (true, true)
unfolding establish_credential credential_status fingerprint bytes_beq normal to_lower trim_space
    trim_right trim_left is_space hang lower_byte lookup touch by_age insert
known_unwritten = refl

abbrev seen_host : Store
seen_host = record new_host {
  pools =
      (codes "root", record { fingerprint = codes "f"; first_seen = 1; last_seen = 2 } ∷ []) ∷ [];
}

granted_second : (establish_credential sign (codes "root") (codes "toor") 9 true seen_host).0 ≡ true
unfolding establish_credential fingerprint bytes_beq normal to_lower trim_space trim_right trim_left
    is_space hang lower_byte lookup touch by_age
granted_second = refl

recent_first : has_recent 9 (codes "f") (pool (codes "root") seen_host) ≡ true
unfolding has_recent lookup bytes_beq
recent_first = refl
