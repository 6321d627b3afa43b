-- ===== src/Trusted.antt =====
-- The domains that the operator trusts, and the hosts that requests name
-- (internal/store/trusted_domains.go). Maps are association lists; a set of addresses is a map into the
-- unit type. Times are numbers, and 0 is the zero time.
pub mod Suffixes
pub mod Roots
pub mod Settings
pub mod Hosts
pub mod Counts
mod Examples
use zent_loop.Common.{
  bounded_key, push_first, ℕ, zero, suc, ◌+◌, ◌-◌, ◌≤◌, ◌<◌, Bool, true, false, not, ◌&&◌, ◌||◌,
  List, [], ◌∷◌, ◌++◌, Bytes, bytes_eq, nat_eq, Option, none, some, ltb, leb, ◌==◌, if◌then◌else◌,
  length, take, drop, codes, Map, lookup, insert, trim_space, to_lower, has_suffix, or_else,
  last_or,
}

-- An address as `net.ParseIP` reads it: its text, and what it belongs to.
pub record Ip : Type 0 where
  pub text : Bytes
  pub private_net : Bool
  pub loopback : Bool
  pub link_local : Bool

-- The functions of Go's `net` package: the host before a port, and an address.
pub record Net : Type 0 where
  pub split_host_port : Bytes → Option Bytes
  pub parse_ip : Bytes → Option Ip

pub record TrustedDomain : Type 0 where
  pub domain : Bytes
  pub source : Bytes
  pub added_at : ℕ

pub record HostStat : Type 0 where
  pub requests : ℕ
  pub sweep_requests : ℕ
  pub first_seen : ℕ
  pub last_seen : ℕ
  pub sources : Map {0, 0} Bytes Unit

-- What an event or a session says of the host it asked for.
pub record Asked : Type 0 where
  pub at : ℕ
  pub ip : Bytes
  pub request_host : Bytes
  pub target : Bytes
  pub target_trust : Bytes
  pub host_sweep : Bool

abbrev pub max_path_keys : ℕ
max_path_keys = 5000

-- strings.Trim with a set of bytes
unfoldable pub drop_all : (ℕ → Bool) → Bytes → Bytes
drop_all p [] = []
drop_all p (c ∷ v) = let rest = drop_all p v in if p c then rest else c ∷ v

unfoldable pub drop_last : (ℕ → Bool) → Bytes → Bytes
drop_last p [] = []
drop_last p (c ∷ v) = let rest = drop_last p v in if p c && (rest == []) then [] else c ∷ rest

abbrev pub is_bracket : ℕ → Bool
is_bracket c = (c == b'[') || (c == b']')

abbrev pub trim_suffix : Bytes → Bytes → Bytes
trim_suffix v p = if has_suffix v p then take (length v - length p) v else v

-- strings.ContainsAny
unfoldable pub contains_any : Bytes → Bytes → Bool
contains_any [] set = false
contains_any (c ∷ v) set = one_of c set || contains_any v set
  where
    one_of : ℕ → Bytes → Bool
    one_of c [] = false
    one_of c (d ∷ set) = (c == d) || one_of c set

-- strings.Split at a byte
unfoldable pub split_at_byte : ℕ → Bytes → List Bytes
split_at_byte sep [] = [] ∷ []
split_at_byte sep (c ∷ v) =
    let rest = split_at_byte sep v in if c == sep then [] ∷ rest else push_first c rest

abbrev pub is_label_byte : ℕ → Bool
is_label_byte r = (leb b'a' r && leb r b'z') || (leb b'0' r && leb r b'9') || (r == b'-')

unfoldable pub all_bytes : (ℕ → Bool) → Bytes → Bool
all_bytes p [] = true
all_bytes p (c ∷ v) = p c && all_bytes p v

unfoldable pub is_label : Bytes → Bool
unfolding all_bytes last_or
is_label [] = false
is_label (c ∷ v) =
    leb (length (c ∷ v)) 63
    && not (c == b'-')
    && not (last_or v c == b'-')
    && all_bytes is_label_byte (c ∷ v)

unfoldable pub all_labels : List Bytes → Bool
unfolding is_label
all_labels [] = true
all_labels (v ∷ vs) = is_label v && all_labels vs

-- The part of `canonicalTrustedHost` for what is no address.
unfoldable pub canonical_name : Bytes → Bytes
unfolding contains_any split_at_byte all_labels
canonical_name v =
    let labels = split_at_byte b'.' v in
    if ltb 253 (length v) || contains_any v (codes "/\\?#@ :")
    then []
    else if ltb (length labels) 2
    then []
    else if all_labels labels
    then v
    else []

abbrev pub canonical_host : Option Ip → Bytes → Bytes
canonical_host none v = canonical_name v
canonical_host (some ip) v = ip.text

-- canonicalTrustedHost: the text of an address, or a name of at least two labels, or nothing
unfoldable pub canonical_trusted_host : Net → Bytes → Bytes
unfolding canonical_name drop_all drop_last
canonical_trusted_host net raw =
    let v = to_lower (trim_space raw) in
    let host = or_else (net.split_host_port v) v in
    let bare = drop_last is_bracket (drop_all is_bracket (trim_suffix host (codes "."))) in
    if v == [] then [] else canonical_host (net.parse_ip bare) bare

abbrev pub is_internal : Option Ip → Bool
is_internal none = false
is_internal (some ip) = ip.private_net || ip.loopback || ip.link_local

unfoldable pub internal_untrusted_host : Net → Bytes → Bool
unfolding canonical_trusted_host
internal_untrusted_host net raw =
    let host = canonical_trusted_host net raw in not (host == []) && is_internal (net.parse_ip host)

-- The test in the loop of `trustedTargetRootLocked`.
unfoldable pub is_under : Bytes → Bytes → Bool
is_under host domain = (host == domain) || has_suffix host (b'.' ∷ domain)

abbrev pub longer_root : Bytes → Bytes → Bytes → Bytes
longer_root host domain root =
    if is_under host domain
    then (if ltb (length root) (length domain) then domain else root)
    else root

-- The loop over the domains, in whatever order.
unfoldable pub root_among {ℓ} : {V : Type ℓ} → Bytes → Map Bytes V → Bytes → Bytes
root_among host [] root = root
root_among host ((domain, row) ∷ m) root = root_among host m (longer_root host domain root)

unfoldable pub trusted_target_root : Net → Bytes → Map Bytes TrustedDomain → Option Bytes
unfolding canonical_trusted_host root_among
trusted_target_root net raw m =
    let host = canonical_trusted_host net raw in
    let root = root_among host m [] in
    if host == [] then none else if root == [] then none else some root

unfoldable pub trusted_host : Net → Bytes → Map Bytes TrustedDomain → Bool
unfolding trusted_target_root
trusted_host net raw m = elim (trusted_target_root net raw m) [ none ↦ false | some root ↦ true ]

unfoldable pub target_filter_matches : Net → Bytes → Bytes → Map Bytes TrustedDomain → Bool
unfolding trusted_target_root
target_filter_matches net raw filter m =
    let wanted = canonical_trusted_host net filter in
    if wanted == []
    then true
    else elim (trusted_target_root net raw m) [ none ↦ false | some root ↦ root == wanted ]

-- decorateEventLocked, decorateSessionLocked
unfoldable pub decorate : Net → Map Bytes TrustedDomain → Asked → Asked
unfolding trusted_host internal_untrusted_host
decorate net m e =
    let raw = if e.target == [] then e.request_host else e.target in
    let shown = if internal_untrusted_host net e.request_host then [] else e.request_host in
    if trusted_host net raw m
    then record e { target = canonical_trusted_host net raw; target_trust = codes "manual" }
    else record e { target = []; target_trust = codes "untrusted"; request_host = shown }

abbrev pub new_stat : ℕ → HostStat
new_stat at = record {
  requests = 0;
  sweep_requests = 0;
  first_seen = at;
  last_seen = 0;
  sources = [];
}

-- One more request of the host.
unfoldable pub count_in : Asked → HostStat → HostStat
count_in e row =
    let first = (row.first_seen == 0) || ltb e.at row.first_seen in
    record {
      requests = row.requests + 1;
      sweep_requests = if e.host_sweep then row.sweep_requests + 1 else row.sweep_requests;
      first_seen = if first then e.at else row.first_seen;
      last_seen = if ltb row.last_seen e.at then e.at else row.last_seen;
      sources =
          if not (e.ip == []) && ltb (length row.sources) 256
          then insert e.ip tt row.sources
          else row.sources;
    }

abbrev pub other_hosts : Bytes
other_hosts = codes "(other request hosts)"

unfoldable pub count_request_host : Net → Asked → Map Bytes HostStat → Map Bytes HostStat
unfolding canonical_trusted_host count_in
count_request_host net e m =
    let asked = canonical_trusted_host net e.request_host in
    let host = if asked == [] then canonical_trusted_host net e.target else asked in
    let key = bounded_key max_path_keys other_hosts host m in
    if host == [] then m else insert key (count_in e (or_else (lookup key m) (new_stat e.at))) m
