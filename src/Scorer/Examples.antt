-- ===== src/Scorer/Examples.antt =====
-- Tests of the scorer, and its theorems at a concrete request.
use zent_loop.Common.{
  true, ◌⊎◌, pos, ◌≤ℤ◌, ◌+ℤ◌, ltb_ℤ, ℕ, List, [], codes, ◌≡◌, inl, inr, refl, contains, to_lower,
  trim_space, trim_left, trim_right, is_space, bytes_beq, has_prefix,
}
use zent_loop.Scorer.{Request, Session, Config, hostile, clamp, assess_at, text_of}
use zent_loop.Scorer.Scores.{assess_at_bounds, assess_at-Seen}
use zent_loop.Scorer.Signals.{Signal, signal}

abbrev request : Request
request = record {
  escaped_path = codes "/.ENV";
  raw_query = [];
  body_sample = [];
  method = codes "GET";
  user_agent = codes "curl";
  sec_fetch_site = [];
  sec_fetch_mode = [];
  accept_language = [];
}

abbrev session : Session
session = record {
  persona = [];
  recent_times = [];
  risk_score = pos 10;
  automation_score = pos 50;
  request_count = 0;
}

abbrev config : Config
config = record { hostile_threshold = pos 40; suspicious_threshold = pos 20 }

abbrev deviation : List ℕ → ℕ
deviation ns = 0

probe_risk : (assess_at config deviation request session 5).risk ≡ pos 50
unfolding assess_at contains to_lower text_of trim_space trim_left trim_right is_space bytes_beq
    has_prefix
probe_risk = refl

assess_at_bounds_example :
    let a = assess_at config deviation request session 5 in
    (pos 0 ≤ℤ a.risk)
    × (a.risk ≤ℤ pos 100)
    × (pos 0 ≤ℤ a.automation)
    × (a.automation ≤ℤ pos 100)
    × (clamp (pos 10) (pos 0) (pos 100) ≤ℤ a.risk +ℤ pos 2)
assess_at_bounds_example = assess_at_bounds config deviation request session 5

abbrev env_signal : Signal
env_signal = signal "/.env" 42 "secret-discovery" "devops"

assess_at-Seen_example :
    let a = assess_at config deviation request session 5 in
    (pos 42 ≤ℤ a.risk) × ((ltb_ℤ (pos 42) (pos 40) ≡ true) ⊎ (a.classification ≡ hostile))
unfolding clamp contains text_of to_lower
assess_at-Seen_example =
    assess_at-Seen config deviation request session 5 env_signal (inl (inr (inl (refl, refl))))
