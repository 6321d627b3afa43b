-- ===== src/Trusted/Settings.antt =====
-- The operator's list of domains: replacing it, and the rows that are stored and read back.
use zent_loop.Common.{
  ℕ, Bool, true, false, not, ◌&&◌, ◌||◌, List, [], ◌∷◌, Bytes, bytes_eq, nat_eq, bytes_beq_iff,
  Option, none, some, ◌==◌, if◌then◌else◌, codes, Map, lookup, insert, lookup-insert, trim_space,
  Bool-cases, ◌≡◌, ◌<◌, ◌⊎◌, arith, refl, ◌∙◌, inl, inr,
}
use zent_loop.Trusted.{Net, TrustedDomain, canonical_trusted_host}

abbrev pub added_or : ℕ → Option TrustedDomain → ℕ
added_or now none = now
added_or now (some old) = if old.added_at == 0 then now else old.added_at

-- A domain that was in the list keeps the time when it was added.
abbrev pub new_domain : Map Bytes TrustedDomain → ℕ → Bytes → TrustedDomain
new_domain old now d = record {
  domain = d;
  source = codes "manual";
  added_at = added_or now (lookup d old);
}

pub data Collected : Type 0 where
  invalid : Bytes → Collected
  table : Map Bytes TrustedDomain → Collected

-- The loop over the domains that are asked for; it ends at the first that is no host.
unfoldable pub collect :
    Net → Map Bytes TrustedDomain → ℕ → List Bytes → Map Bytes TrustedDomain → Collected
unfolding canonical_trusted_host
collect net old now [] next = table next
collect net old now (raw ∷ raws) next =
    let d = canonical_trusted_host net raw in
    let rest = collect net old now raws (insert d (new_domain old now d) next) in
    if d == [] then invalid (trim_space raw) else rest

-- The results: an error that names the domain, an error of the file, or none.
pub data Setting : Type 0 where
  refused : Bytes → Setting
  unwritten replaced : Setting

-- `written` says whether the file was written.
abbrev pub store_table :
    Bool → Map Bytes TrustedDomain → Collected → Setting × Map Bytes TrustedDomain
store_table written old (invalid raw) = (refused raw, old)
store_table written old (table next) = if written then (replaced, next) else (unwritten, old)

unfoldable pub set_manual_trusted_domains :
    Net → List Bytes → ℕ → Bool → Map Bytes TrustedDomain → Setting × Map Bytes TrustedDomain
unfolding collect
set_manual_trusted_domains net domains now written old =
    store_table written old (collect net old now domains [])

-- loadTrustedDomains, from the rows of the file
unfoldable pub load_trusted_domains :
    Net → List TrustedDomain → Map Bytes TrustedDomain → Map Bytes TrustedDomain
unfolding canonical_trusted_host
load_trusted_domains net [] m = m
load_trusted_domains net (row ∷ rows) m =
    let d = canonical_trusted_host net row.domain in
    let put = insert d (record row { domain = d; source = codes "manual" }) m in
    load_trusted_domains net rows (if d == [] then m else put)

-- Every domain that is asked for is a host.
unfoldable pub all_hosts : Net → List Bytes → Bool
all_hosts net [] = true
all_hosts net (raw ∷ raws) = not (canonical_trusted_host net raw == []) && all_hosts net raws

-- The domain is asked for.
unfoldable pub is_listed : Net → List Bytes → Bytes → Bool
is_listed net [] d = false
is_listed net (raw ∷ raws) d = is_listed net raws d || (canonical_trusted_host net raw == d)

abbrev pub is_replaced : Setting → Bool
is_replaced replaced = true
is_replaced s = false

-- The time of a row: when the domain was added, if the table held it with a time, and now otherwise.
abbrev pub IsTime : Option TrustedDomain → ℕ → ℕ → Type 0
IsTime none now at = at ≡ now
IsTime (some held) now at =
    ((0 < held.added_at) × (at ≡ held.added_at)) ⊎ ((held.added_at ≡ 0) × (at ≡ now))

-- The row of a domain in the new table.
abbrev pub IsRow : Map Bytes TrustedDomain → ℕ → Bytes → TrustedDomain → Type 0
IsRow old now d row =
    (row.domain ≡ d) × (row.source ≡ codes "manual") × IsTime (lookup d old) now row.added_at

added_or-IsTime : (now : ℕ) (held : Option TrustedDomain) → IsTime held now (added_or now held)
added_or-IsTime now none = refl
added_or-IsTime now (some held) = ground arith

module _ (net : Net) (old : Map Bytes TrustedDomain) (now : ℕ) where
  -- What a lookup finds after the loop.
  abbrev found : Bytes → Collected → Option TrustedDomain
  found d (invalid raw) = lookup d old
  found d (table next) = lookup d next

  abbrev is_table : Collected → Bool
  is_table (invalid raw) = false
  is_table (table next) = true

  put_before :
      (all listed : Bool) (k d : Bytes) (next : Map Bytes TrustedDomain)
      → (if all
          then (if listed
              then some (new_domain old now d)
              else lookup d (insert k (new_domain old now k) next))
          else lookup d old)
        ≡ (if all
            then (if listed || (k == d) then some (new_domain old now d) else lookup d next)
            else lookup d old)
  put_before false listed k d next = refl
  put_before true true k d next = refl
  put_before true false k d next = elim (Bool-cases (k == d)) [
    | inl here ↦
        let same = (bytes_beq_iff k d).0 here in
        rw (lookup-insert d k (new_domain old now k) next, here, same) refl
    | inr other ↦ rw (lookup-insert d k (new_domain old now k) next, other) refl
  ]

  collect_lem :
      (raws : List Bytes) (next : Map Bytes TrustedDomain) (d : Bytes)
      → (is_table (collect net old now raws next) ≡ all_hosts net raws)
        × (found d (collect net old now raws next) ≡ (
            if all_hosts net raws
            then (if is_listed net raws d then some (new_domain old now d) else lookup d next)
            else lookup d old))
  unfolding collect all_hosts is_listed
  collect_lem [] next d = (refl, refl)
  collect_lem (raw ∷ raws) next d = elim (Bool-cases (canonical_trusted_host net raw == [])) [
    | inl no_host ↦ rw no_host (refl, refl)
    | inr host ↦
        let k = canonical_trusted_host net raw in
        let ih = collect_lem raws (insert k (new_domain old now k) next) d in
        rw host (ih.0, ih.1 ∙ put_before (all_hosts net raws) (is_listed net raws d) k d next)
  ]

  store_table-collected :
      (d : Bytes) (written : Bool) (c : Collected) (all listed : Bool)
      → is_table c ≡ all
      → found d c
        ≡ (if all then (if listed then some (new_domain old now d) else none) else lookup d old)
      → (is_replaced (store_table written old c).0 ≡ (all && written))
        × (lookup d (store_table written old c).1 ≡ (
            if all && written
            then (if listed then some (new_domain old now d) else none)
            else lookup d old))
  store_table-collected d written (invalid raw) true listed e f = cc
  store_table-collected d written (invalid raw) false listed e f = (refl, refl)
  store_table-collected d true (table next) true listed e f = (refl, f)
  store_table-collected d false (table next) true listed e f = (refl, refl)
  store_table-collected d written (table next) false listed e f = cc

-- Replacing the list succeeds exactly if every domain that is asked for is a host and the file is
-- written. The table then holds just the domains asked for, in canonical form, each marked as manual,
-- and one that it held before keeps the time when it was added, unless that is the zero time; the others
-- have the present time. In every other case the table is as before.
pub set_manual_trusted_domains_lem :
    (net : Net) (domains : List Bytes) (now : ℕ) (written : Bool) (old : Map Bytes TrustedDomain)
    (d : Bytes)
    → let result = set_manual_trusted_domains net domains now written old in
      let good = all_hosts net domains && written in
      (is_replaced result.0 ≡ good)
      × (row : TrustedDomain) × IsRow old now d row
      × (lookup d result.1
          ≡ (if good then (if is_listed net domains d then some row else none) else lookup d old))
unfolding set_manual_trusted_domains lookup
set_manual_trusted_domains_lem net domains now written old d =
    let both = collect_lem net old now domains [] d in
    let stored =
      store_table-collected net old now d written (collect net old now domains [])
        (all_hosts net domains) (is_listed net domains d) both.0 both.1 in
    (stored.0, new_domain old now d, (refl, refl, added_or-IsTime now (lookup d old)), stored.1)
