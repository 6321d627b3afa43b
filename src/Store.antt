-- ===== src/Store.antt =====
-- The web side of the event store (internal/store/store.go): the ring of events, the counters that
-- every event is entered into, and the table of sessions.
pub mod Paths
pub mod Counts
pub mod Sessions
pub mod Links
pub mod Views
mod Examples
use zent_loop.Common.{
  contains, ℕ, zero, suc, ◌+◌, ◌-◌, ◌≤◌, Bool, true, false, not, ◌&&◌, ◌||◌, List, [], ◌∷◌, ◌++◌,
  Bytes, bytes_eq, nat_eq, Option, none, some, ltb, leb, ◌==◌, if◌then◌else◌, length, take, drop,
  codes, Map, lookup, insert, remove, to_lower, trim_space, or_else, bounded_key,
}
use Paths.{normalize_path}
use zent_loop.Trusted.{Net, HostStat, Asked, count_request_host}

abbrev pub max_ring : ℕ
max_ring = 5000

abbrev pub max_path_keys : ℕ
max_path_keys = 5000

pub data Classification : Type 0 where
  benign suspicious hostile : Classification

-- The fields of an event that the counters use.
pub record Event : Type 0 where
  pub at : ℕ
  pub path : Bytes
  pub target : Bytes
  pub catch_all : Bool
  pub classification : Classification
  pub integration : Bytes
  pub ip : Bytes
  pub method : Bytes
  pub user_agent : Bytes
  pub message : Bytes
  pub request_host : Bytes
  pub host_sweep : Bool
  pub category : Bytes
  pub risk_score : ℕ
  pub status : ℕ
  pub known_probe : Bool
  pub probe_name : Bytes
  pub probe_product : Bytes
  pub probe_cve : Bytes

pub record CatchAllHost : Type 0 where
  pub first_seen : ℕ
  pub last_seen : ℕ
  pub requests : ℕ
  pub hostile_requests : ℕ
  pub suspicious_requests : ℕ
  pub last_integration : Bytes

pub record UnknownPath : Type 0 where
  pub path : Bytes
  pub method : Bytes
  pub first_seen : ℕ
  pub last_seen : ℕ
  pub example_ip : Bytes
  pub example_user_agent : Bytes
  pub count : ℕ

pub record ProbeStat : Type 0 where
  pub name : Bytes
  pub product : Bytes
  pub cve : Bytes
  pub first_seen : ℕ
  pub last_seen : ℕ
  pub count : ℕ
  pub hostile_requests : ℕ
  pub suspicious_requests : ℕ

pub record Counters : Type 0 where
  pub events : List Event
  pub requests_total : ℕ
  pub path_counts : Map Bytes ℕ
  pub target_counts : Map Bytes ℕ
  pub catch_all_hosts : Map Bytes CatchAllHost
  pub integration_counts : Map Bytes ℕ
  pub catch_all_requests : ℕ
  pub request_hosts : Map Bytes HostStat
  pub unknown_paths : Map Bytes UnknownPath
  pub probe_stats : Map Bytes ProbeStat

-- `m[k]++`
unfoldable pub bump : Bytes → Map Bytes ℕ → Map Bytes ℕ
bump k m = insert k (or_else (lookup k m) 0 + 1) m

unfoldable pub push_event : Event → List Event → List Event
push_event e events =
    let all = events ++ e ∷ [] in
    if ltb max_ring (length all) then drop (length all - max_ring) all else all

abbrev pub other_paths : Bytes
other_paths = codes "(other unique paths)"

-- countPath
unfoldable pub count_path : Bytes → Map Bytes ℕ → Map Bytes ℕ
unfolding normalize_path bump
count_path path m = bump (bounded_key max_path_keys other_paths (normalize_path path) m) m

abbrev pub named_or_unknown : Bytes → Bytes
named_or_unknown v = if v == [] then codes "(unknown)" else v

-- countTarget
unfoldable pub count_target : Bytes → Map Bytes ℕ → Map Bytes ℕ
unfolding bump
count_target target m = bump (named_or_unknown (trim_space (to_lower target))) m

abbrev pub is_hostile : Classification → Bool
is_hostile hostile = true
is_hostile c = false

abbrev pub is_suspicious : Classification → Bool
is_suspicious suspicious = true
is_suspicious c = false

abbrev pub new_host : ℕ → CatchAllHost
new_host at = record {
  first_seen = at;
  last_seen = 0;
  requests = 0;
  hostile_requests = 0;
  suspicious_requests = 0;
  last_integration = [];
}

unfoldable pub count_in_host : Event → CatchAllHost → CatchAllHost
count_in_host e h = record {
  first_seen = if (h.first_seen == 0) || ltb e.at h.first_seen then e.at else h.first_seen;
  last_seen = e.at;
  requests = h.requests + 1;
  hostile_requests =
      if is_hostile e.classification then h.hostile_requests + 1 else h.hostile_requests;
  suspicious_requests =
      if is_suspicious e.classification then h.suspicious_requests + 1 else h.suspicious_requests;
  last_integration = if e.integration == [] then h.last_integration else e.integration;
}

abbrev pub other_hosts : Bytes
other_hosts = codes "(other catch-all hosts)"

unfoldable pub count_host : Event → Map Bytes CatchAllHost → Map Bytes CatchAllHost
unfolding count_in_host
count_host e m =
    let host = named_or_unknown (trim_space (to_lower e.target)) in
    let key = bounded_key max_path_keys other_hosts host m in
    insert key (count_in_host e (or_else (lookup key m) (new_host e.at))) m

-- countCatchAll
unfoldable pub count_catch_all : Event → Counters → Counters
unfolding count_host bump
count_catch_all e c =
    let integration = if e.integration == [] then codes "(unspecified)" else e.integration in
    if not e.catch_all then c else record c {
      catch_all_hosts = count_host e c.catch_all_hosts;
      integration_counts = bump integration c.integration_counts;
      catch_all_requests = c.catch_all_requests + 1;
    }

unfoldable pub upper_byte : ℕ → ℕ
upper_byte c = if leb b'a' c && leb c b'z' then c - 32 else c

-- strings.ToUpper
unfoldable pub to_upper : Bytes → Bytes
unfolding upper_byte
to_upper [] = []
to_upper (c ∷ v) = upper_byte c ∷ to_upper v

unfoldable pub one_of : Bytes → List Bytes → Bool
one_of v [] = false
one_of v (w ∷ ws) = (v == w) || one_of v ws

abbrev pub ordinary_paths : List Bytes
ordinary_paths =
    codes "/"
    ∷ codes "/favicon.ico"
    ∷ codes "/index.html"
    ∷ codes "/index.htm"
    ∷ codes "/robots.txt"
    ∷ codes "/sitemap.xml"
    ∷ codes "/.well-known/passkey-endpoints"
    ∷ []

unfoldable pub is_stored_activity_pub_relay : Event → Bytes → Bool
unfolding to_upper
is_stored_activity_pub_relay e path =
    let ua = to_lower e.user_agent in
    (path == codes "/inbox")
    && (to_upper (trim_space e.method) == codes "POST")
    && ((e.message == codes "activitypub-relay")
        || contains ua (codes "activity-relay")
        || contains ua (codes "toot relay"))

unfoldable pub is_unknown_path : Event → Bytes → Bool
unfolding one_of is_stored_activity_pub_relay
is_unknown_path e path =
    not (e.known_probe || one_of path ordinary_paths || is_stored_activity_pub_relay e path)
    && not ((e.category == codes "request") && ltb e.risk_score 20 && not (e.status == 404))

abbrev pub new_unknown : Event → Bytes → UnknownPath
new_unknown e path = record {
  path = path;
  method = e.method;
  first_seen = e.at;
  last_seen = 0;
  example_ip = e.ip;
  example_user_agent = e.user_agent;
  count = 0;
}

-- countUnknown
unfoldable pub count_unknown : Event → Map Bytes UnknownPath → Map Bytes UnknownPath
unfolding normalize_path is_unknown_path to_upper
count_unknown e m =
    let path = normalize_path e.path in
    let key = to_upper e.method ++ codes "|" ++ path in
    let u = or_else (lookup key m) (new_unknown e path) in
    if is_unknown_path e path
    then insert key (record u { count = u.count + 1; last_seen = e.at }) m
    else m

abbrev pub new_probe : Event → ProbeStat
new_probe e = record {
  name = e.probe_name;
  product = e.probe_product;
  cve = e.probe_cve;
  first_seen = e.at;
  last_seen = 0;
  count = 0;
  hostile_requests = 0;
  suspicious_requests = 0;
}

unfoldable pub count_in_probe : Event → ProbeStat → ProbeStat
count_in_probe e p = record p {
  count = p.count + 1;
  hostile_requests =
      if is_hostile e.classification then p.hostile_requests + 1 else p.hostile_requests;
  suspicious_requests =
      if is_suspicious e.classification then p.suspicious_requests + 1 else p.suspicious_requests;
  first_seen = if (p.first_seen == 0) || ltb e.at p.first_seen then e.at else p.first_seen;
  last_seen = if ltb p.last_seen e.at then e.at else p.last_seen;
}

-- countProbe
unfoldable pub count_probe : Event → Map Bytes ProbeStat → Map Bytes ProbeStat
unfolding count_in_probe
count_probe e m =
    let key = to_lower (
      trim_space e.probe_name
      ++ codes "|"
      ++ trim_space e.probe_product
      ++ codes "|"
      ++ trim_space e.probe_cve) in
    if not e.known_probe || (trim_space e.probe_name == [])
    then m
    else insert key (count_in_probe e (or_else (lookup key m) (new_probe e))) m

-- What the counter of request hosts reads of the event.
abbrev pub asked : Event → Asked
asked e = record {
  at = e.at;
  ip = e.ip;
  request_host = e.request_host;
  target = e.target;
  target_trust = [];
  host_sweep = e.host_sweep;
}

-- AddEvent, once the event is written to the log, without the counters of days and hours, the actors
-- and the feed.
unfoldable pub add_event : Net → Event → Counters → Counters
unfolding push_event count_path count_target count_catch_all count_unknown count_probe
add_event net e c = count_catch_all e (record c {
  events = push_event e c.events;
  requests_total = c.requests_total + 1;
  path_counts = count_path e.path c.path_counts;
  target_counts = count_target e.target c.target_counts;
  request_hosts = count_request_host net (asked e) c.request_hosts;
  unknown_paths = count_unknown e c.unknown_paths;
  probe_stats = count_probe e c.probe_stats;
})
