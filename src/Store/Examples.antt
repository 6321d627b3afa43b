-- ===== src/Store/Examples.antt =====
-- Tests of the store, and its theorems at concrete events and sessions.
use zent_loop.Common.{
  Map, Bytes, ◌∷◌, length, take, trim_space, trim_right, trim_left, is_space, has_suffix, to_lower,
  [], codes, ◌≡◌, refl, inl, arith, true, false, none, bytes_beq, bytes_eq, join,
}
use mathlib.Core.List.{reverse}
use zent_loop.Trusted.{Net, TrustedDomain, canonical_trusted_host, is_under}
use zent_loop.Store.Views.{events, newest, is_wanted, limited, keep_events, events-add_event}
use zent_loop.Store.{max_ring, Event, Counters, hostile, add_event}
use zent_loop.Store.Paths.{normalize_path}
use zent_loop.Store.Sessions.{Table, Session, upsert_session}
use zent_loop.Store.Links.{IsLinked, upsert_session-IsLinked}
use zent_loop.Store.Counts.{IsConsistent, sum_by, add_event-IsConsistent}

abbrev empty : Counters
empty = record {
  events = [];
  requests_total = 0;
  path_counts = [];
  target_counts = [];
  catch_all_hosts = [];
  integration_counts = [];
  catch_all_requests = 0;
  request_hosts = [];
  unknown_paths = [];
  probe_stats = [];
}

abbrev event : Event
event = record {
  at = 3;
  path = codes "/user/12345";
  target = codes "Example.org";
  catch_all = true;
  classification = hostile;
  integration = [];
  ip = codes "1.2.3.4";
  method = codes "get";
  user_agent = [];
  message = [];
  request_host = codes "example.net";
  host_sweep = true;
  category = codes "request";
  risk_score = 30;
  status = 404;
  known_probe = false;
  probe_name = [];
  probe_product = [];
  probe_cve = [];
}

abbrev net : Net
net = record { split_host_port = λ v. none; parse_ip = λ v. none }

normal_path : normalize_path (codes "/user/123/deadbeef01/x") ≡ codes "/user/:id/:token/x"
unfolding normalize_path bytes_beq join
normal_path = refl

-- The counters of the new store add up.
empty-IsConsistent : IsConsistent empty
unfolding sum_by
empty-IsConsistent = (
  omega arith,
  inl (omega arith),
  inl (omega arith),
  refl,
  refl,
  refl,
  refl,
  (inl (omega arith), tt),
)

add_event-IsConsistent_example : IsConsistent (add_event net event empty)
add_event-IsConsistent_example = add_event-IsConsistent net event empty empty-IsConsistent

abbrev sessions : Table
sessions = record { sessions = []; fingerprints = []; http_sequences = [] }

abbrev seen : Session
seen = record { last_seen = 4; rest = [] }

upsert_session-IsLinked_example : IsLinked (upsert_session (codes "s1") seen (codes "fp") sessions)
upsert_session-IsLinked_example =
    upsert_session-IsLinked (codes "s1") seen (codes "fp") sessions (omega arith, tt)

abbrev domains : Map Bytes TrustedDomain
domains =
    (
      codes "example.org",
      record { domain = codes "example.org"; source = codes "manual"; added_at = 1 },
    )
    ∷ []

-- A second event, of another host, that the filter passes over.
abbrev foreign : Event
foreign = record event { target = codes "example.net"; at = 4 }

events-add_event_example :
    events net domains 1 (codes "example.org") (add_event net foreign (add_event net event empty))
    ≡ limited 1 (
        keep_events
          (is_wanted net domains (trim_space (codes "example.org")))
          (take max_ring (foreign ∷ reverse (add_event net event empty).events)))
events-add_event_example =
    events-add_event net domains 1 (codes "example.org") foreign (add_event net event empty)

foreign_passed :
    length (events net domains 1 (codes "example.net") (record empty { events = event ∷ [] })) ≡ 0
unfolding events bytes_beq is_wanted newest canonical_trusted_host to_lower trim_space trim_right
    trim_left is_space has_suffix is_under
foreign_passed = refl
