-- ===== src/Bursts.antt =====
-- Coordinated bursts of requests (internal/store/bursts.go). Times are nanoseconds, and 0 is the zero
-- time; a set of texts is a map into the unit type.
pub mod Groups
pub mod Views
mod Examples
use zent_loop.Common.{
  ℕ, zero, suc, ◌+◌, ◌*◌, ◌≤◌, Bool, true, false, not, ◌&&◌, ◌||◌, List, [], ◌∷◌, ◌++◌, Bytes,
  bytes_eq, nat_eq, Option, none, some, ltb, leb, ◌==◌, if◌then◌else◌, length, take, Map, insert,
  ◌>>=◌, codes, sort_names, to_lower, contains, trim_space,
}

-- The fields of an event that are used.
pub record Hit : Type 0 where
  pub at : ℕ
  pub ip : Bytes
  pub target : Bytes
  pub user_agent : Bytes
  pub path : Bytes

pub record Group : Type 0 where
  pub first : ℕ
  pub last : ℕ
  pub target : Bytes
  pub ua : Bytes
  pub prefix : Bytes
  pub ips : Map {0, 0} Bytes Unit
  pub paths : Map {0, 0} Bytes Unit
  pub requests : ℕ

pub record ScanBurst : Type 0 where
  pub id : Bytes
  pub first_seen : ℕ
  pub last_seen : ℕ
  pub target : Bytes
  pub user_agent : Bytes
  pub source_group : Bytes
  pub sources : ℕ
  pub requests : ℕ
  pub paths : List Bytes
  pub fingerprint : Bytes

-- What is computed elsewhere: the network of an address (`none` where it is no address), and the digest
-- that makes the id of a group.
pub record Env : Type 0 where
  pub network_of : Bytes → Option Bytes
  pub id_of : Group → Bytes

abbrev pub burst_gap : ℕ
burst_gap = 4 * 1_000_000_000

abbrev pub network_or : Bytes → Option Bytes → Bytes
network_or ip none = ip
network_or ip (some network) = network

-- sourceGroup
unfoldable pub source_group : Env → Bytes → Bytes
source_group env ip = network_or ip (env.network_of (trim_space ip))

unfoldable pub is_usable : Hit → Bool
is_usable e = not (e.ip == []) && not (e.at == 0) && not (e.user_agent == [])

abbrev pub new_group : Hit → Bytes → Group
new_group e prefix = record {
  first = e.at;
  last = e.at;
  target = e.target;
  ua = e.user_agent;
  prefix = prefix;
  ips = [];
  paths = [];
  requests = 0;
}

unfoldable pub add_hit : Hit → Group → Group
add_hit e g = record {
  first = if ltb e.at g.first then e.at else g.first;
  last = if ltb g.last e.at then e.at else g.last;
  target = g.target;
  ua = g.ua;
  prefix = g.prefix;
  ips = insert e.ip tt g.ips;
  paths = if e.path == [] then g.paths else insert e.path tt g.paths;
  requests = g.requests + 1;
}

abbrev pub before_all : Group → Option (List Group) → Option (List Group)
before_all g none = none
before_all g (some gs) = some (g ∷ gs)

-- The search through the groups, the newest first: it stops at a group that is too old.
unfoldable pub join_group : Hit → Bytes → List Group → Option (List Group)
unfolding add_hit
join_group e prefix [] = none
join_group e prefix (g ∷ gs) =
    let later = join_group e prefix gs in
    if ltb (g.last + burst_gap) e.at
    then none
    else if (g.target == e.target) && (g.ua == e.user_agent) && (g.prefix == prefix)
    then some (add_hit e g ∷ gs)
    else before_all g later

abbrev pub joined_or_new : Hit → Bytes → List Group → Option (List Group) → List Group
joined_or_new e prefix gs none = add_hit e (new_group e prefix) ∷ gs
joined_or_new e prefix gs (some joined) = joined

unfoldable pub group_hit : Env → Hit → List Group → List Group
unfolding join_group is_usable source_group
group_hit env e gs =
    let prefix = source_group env e.ip in
    if is_usable e then joined_or_new e prefix gs (join_group e prefix gs) else gs

-- The groups of all events, the newest group first.
unfoldable pub group_hits : Env → List Hit → List Group → List Group
unfolding group_hit
group_hits env [] gs = gs
group_hits env (e ∷ es) gs = group_hits env es (group_hit env e gs)

unfoldable pub count_mcp : List Bytes → ℕ
count_mcp [] = 0
count_mcp (p ∷ ps) =
    let rest = count_mcp ps in
    if (p == codes "/mcp") || (p == codes "/mcp/") || (p == codes "/api/mcp") || (p == codes "/sse")
    then rest + 1
    else rest

-- burstFingerprint
unfoldable pub burst_fingerprint : Bytes → List Bytes → Bytes
unfolding count_mcp
burst_fingerprint ua paths =
    if contains (to_lower ua) (codes "infrawatch")
    then codes "http:internet-measurement"
    else if leb 2 (count_mcp paths)
    then codes "http:mcp-discovery-burst"
    else codes "http:coordinated-scan"

unfoldable pub keys_of : Map {0, 0} Bytes Unit → List Bytes
keys_of [] = []
keys_of ((k, v) ∷ m) = k ∷ keys_of m

unfoldable pub burst_of : Env → Group → ScanBurst
unfolding burst_fingerprint keys_of
burst_of env g =
    let sorted = sort_names (keys_of g.paths) in
    let paths = if ltb 12 (length sorted) then take 12 sorted else sorted in
    record {
      id = env.id_of g;
      first_seen = g.first;
      last_seen = g.last;
      target = g.target;
      user_agent = g.ua;
      source_group = g.prefix;
      sources = length g.ips;
      requests = g.requests;
      paths = paths;
      fingerprint = burst_fingerprint g.ua paths;
    }

unfoldable pub place_burst : ScanBurst → List ScanBurst → List ScanBurst
place_burst a [] = a ∷ []
place_burst a (b ∷ bs) =
    let later = place_burst a bs in if ltb a.last_seen b.last_seen then b ∷ later else a ∷ b ∷ bs

-- The groups that are bursts, by their last event, the latest first.
unfoldable pub bursts_among : Env → List Group → List ScanBurst
unfolding burst_of place_burst
bursts_among env [] = []
bursts_among env (g ∷ gs) =
    let others = bursts_among env gs in
    if ltb (length g.ips) 3 || ltb g.requests 3 then others else place_burst (burst_of env g) others

-- ScanBursts; a limit of 0 stands for none that is given
unfoldable pub scan_bursts : Env → List Hit → ℕ → List ScanBurst
unfolding group_hits bursts_among
scan_bursts env events limit =
    let max = if limit == 0 then 50 else limit in
    let out = bursts_among env (group_hits env events []) in
    if ltb max (length out) then take max out else out
