-- ===== src/Scorer.antt =====
-- The risk scorer (internal/engine/scorer.go): what a request adds to the scores of its session. A
-- change of the automation score is kept as what is added and what is taken away; the scores themselves
-- are integers, which the clamp puts back between 0 and 100. Times are nanoseconds.
pub mod Signals
pub mod Scores
mod Examples
use zent_loop.Common.{
  ℕ, zero, suc, ◌+◌, ◌-◌, ◌*◌, ◌/◌, ◌≤◌, Bool, true, false, not, ◌&&◌, ◌||◌, List, [], ◌∷◌, ◌++◌,
  Bytes, bytes_eq, nat_eq, ltb, leb, ◌==◌, if◌then◌else◌, length, take, drop, codes, to_lower,
  trim_space, contains, last_or, ℤ, pos, negsuc, above_zero, below_zero, difference, ◌+ℤ◌, ◌-ℤ◌,
  ltb_ℤ, leb_ℤ,
}
use Signals.{Signal, path_signals, payload_signals, scanner_uas, measurement_uas}

-- What the scorer reads of a request.
pub record Request : Type 0 where
  pub escaped_path : Bytes
  pub raw_query : Bytes
  pub body_sample : Bytes
  pub method : Bytes
  pub user_agent : Bytes
  pub sec_fetch_site : Bytes
  pub sec_fetch_mode : Bytes
  pub accept_language : Bytes

-- What it reads of a session.
pub record Session : Type 0 where
  pub persona : Bytes
  pub recent_times : List ℕ
  pub risk_score : ℤ
  pub automation_score : ℤ
  pub request_count : ℕ

pub record Config : Type 0 where
  pub hostile_threshold : ℤ
  pub suspicious_threshold : ℤ

pub data Classification : Type 0 where
  benign suspicious hostile : Classification

pub data Actor : Type 0 where
  unknown automated human : Actor

pub record Assessment : Type 0 where
  pub risk : ℤ
  pub automation : ℤ
  pub classification : Classification
  pub actor : Actor
  pub confidence : Bytes
  pub category : Bytes
  pub persona : Bytes

-- The deltas so far.
pub record Evidence : Type 0 where
  pub risk : ℕ
  pub plus : ℕ
  pub minus : ℕ
  pub category : Bytes
  pub persona : Bytes

abbrev pub max : ℕ → ℕ → ℕ
max a b = if ltb b a then a else b

unfoldable pub clamp : ℤ → ℤ → ℤ → ℤ
clamp v lo hi = if ltb_ℤ v lo then lo else if ltb_ℤ hi v then hi else v

abbrev pub see_signal : Bool → Bytes → Signal → Evidence → Evidence
see_signal keep_persona text sig e =
    if contains text sig.needle
    then record e {
      risk = max e.risk sig.weight;
      category = sig.category;
      persona = if keep_persona || not (e.persona == []) then e.persona else sig.persona;
    }
    else e

-- A loop over signals; those of a payload have no persona.
unfoldable pub see_signals : Bool → Bytes → List Signal → Evidence → Evidence
see_signals keep_persona text [] e = e
see_signals keep_persona text (sig ∷ sigs) e =
    see_signals keep_persona text sigs (see_signal keep_persona text sig e)

-- Both loops.
unfoldable pub see_all_signals : Bytes → Evidence → Evidence
unfolding see_signals
see_all_signals text e =
    see_signals true text payload_signals (see_signals false text path_signals e)

unfoldable pub contains_one : Bytes → List Bytes → Bool
contains_one v [] = false
contains_one v (x ∷ xs) = contains v x || contains_one v xs

abbrev pub when : Bool → (Evidence → Evidence) → Evidence → Evidence
when true f e = f e
when false f e = e

abbrev pub plus_by : ℕ → Evidence → Evidence
plus_by n e = record e { plus = e.plus + n }

abbrev pub minus_by : ℕ → Evidence → Evidence
minus_by n e = record e { minus = e.minus + n }

abbrev pub audit_found : Evidence → Evidence
audit_found e = record e {
  risk = max e.risk 48;
  plus = e.plus + 35;
  category = codes "vulnerability-audit-probe";
}

abbrev pub measurement_found : Evidence → Evidence
measurement_found e = record e { plus = e.plus + 75; category = codes "internet-measurement" }

abbrev pub scanner_found : Evidence → Evidence
scanner_found e = record e {
  risk = e.risk + 22;
  plus = e.plus + 35;
  category = codes "scanner-fingerprint";
}

abbrev pub method_found : Evidence → Evidence
method_found e = record e {
  risk = e.risk + 30;
  plus = e.plus + 10;
  category = codes "unusual-method";
}

unfoldable pub is_audit : Request → Bool
is_audit r =
    let ua = to_lower r.user_agent in
    contains (to_lower r.escaped_path) (codes "/api/json/settings/")
    && contains ua (codes "cve-")
    && contains ua (codes "audit")

unfoldable pub see_agent : Request → Evidence → Evidence
unfolding contains_one is_audit
see_agent r e =
    let ua = to_lower r.user_agent in
    when (contains_one ua scanner_uas) scanner_found
      (when (contains_one ua measurement_uas) measurement_found (when (is_audit r) audit_found e))

unfoldable pub see_method : Request → Evidence → Evidence
see_method r e = when ((r.method == codes "TRACE") || (r.method == codes "CONNECT")) method_found e

abbrev pub see_language : Request → Evidence → Evidence
see_language r e =
    if not (r.accept_language == [])
    then minus_by 4 e
    else when (r.sec_fetch_mode == []) (plus_by 8) e

unfoldable pub see_headers : Request → Evidence → Evidence
see_headers r e = see_language r (
    when (not (r.sec_fetch_site == []) || not (r.sec_fetch_mode == [])) (minus_by 8)
      (when (trim_space r.user_agent == []) (plus_by 12) e))

unfoldable pub place_time : ℕ → List ℕ → List ℕ
place_time t [] = t ∷ []
place_time t (u ∷ us) = let later = place_time t us in if leb t u then t ∷ u ∷ us else u ∷ later

unfoldable pub sort_times : List ℕ → List ℕ
unfolding place_time
sort_times [] = []
sort_times (t ∷ ts) = place_time t (sort_times ts)

-- The last times, at most `n`.
abbrev pub newest : ℕ → List ℕ → List ℕ
newest n ts = drop (length ts - n) ts

-- The intervals between the times, in milliseconds.
unfoldable pub gaps : List ℕ → List ℕ
gaps [] = []
gaps (t ∷ []) = []
gaps (t ∷ u ∷ ts) = ((u - t) / 1_000_000) ∷ gaps (u ∷ ts)

unfoldable pub sum : List ℕ → ℕ
sum [] = 0
sum (n ∷ ns) = n + sum ns

abbrev pub mean : List ℕ → ℕ
mean [] = 0
mean (n ∷ ns) = sum (n ∷ ns) / length (n ∷ ns)

-- The first and the last of the six newest times are less than two seconds apart.
unfoldable pub spread : List ℕ → ℕ
unfolding last_or
spread [] = 0
spread (t ∷ ts) = last_or ts t - t

abbrev pub six_in_two_seconds : List ℕ → Bool
six_in_two_seconds ts = leb 6 (length ts) && ltb (spread (newest 6 ts)) 2_000_000_000

-- `deviation` is the standard deviation of the intervals, whose floats are not modelled.
unfoldable pub see_times : (List ℕ → ℕ) → List ℕ → ℕ → Evidence → Evidence
unfolding sort_times gaps sum spread
see_times deviation recent now e =
    let ts = newest 12 (sort_times (recent ++ now ∷ [])) in
    let avg = mean (gaps ts) in
    let speed =
      if ltb avg 150 then 45 else if ltb avg 350 then 32 else if ltb avg 800 then 18 else 0 in
    let slow = if ltb 2500 avg then 18 else 0 in
    let steady = if ltb (deviation (gaps ts)) 80 && ltb avg 1200 then 12 else 0 in
    let dense = if six_in_two_seconds ts then 18 else 0 in
    if leb 3 (length ts)
    then record e { plus = e.plus + speed + steady + dense; minus = e.minus + slow }
    else e

-- The text that the signals are looked for in.
unfoldable pub text_of : Request → Bytes
text_of r =
    to_lower r.escaped_path
    ++ codes "?"
    ++ to_lower r.raw_query
    ++ codes " "
    ++ to_lower r.body_sample

abbrev pub no_evidence : Session → Evidence
no_evidence ss = record {
  risk = 0;
  plus = 0;
  minus = 0;
  category = codes "request";
  persona = ss.persona;
}

-- All that is said of a request, from no evidence on.
unfoldable pub evidence : (List ℕ → ℕ) → Request → Session → ℕ → Evidence
unfolding see_all_signals see_agent see_method see_headers see_times
evidence deviation r ss now =
    see_times deviation ss.recent_times now
      (see_headers r (see_method r (see_agent r (see_all_signals (text_of r) (no_evidence ss)))))

abbrev pub rounded : ℕ → ℕ
rounded a = (a * 72 + 50) / 100

-- math.Round(0.72 a); there are no ties
abbrev pub decayed : ℤ → ℤ
decayed a = difference (rounded (above_zero a)) (rounded (below_zero a))

unfoldable pub classify : Config → ℤ → Classification
classify cfg risk =
    if leb_ℤ cfg.hostile_threshold risk
    then hostile
    else if leb_ℤ cfg.suspicious_threshold risk
    then suspicious
    else benign

unfoldable pub actor_of : ℤ → Actor
actor_of auto =
    if leb_ℤ (pos 65) auto then automated else if leb_ℤ auto (pos 30) then human else unknown

abbrev pub is_unknown : Actor → Bool
is_unknown unknown = true
is_unknown a = false

unfoldable pub confidence_of : ℤ → Bytes
unfolding actor_of
confidence_of auto =
    if leb_ℤ (pos 85) auto || leb_ℤ auto (pos 15)
    then codes "high"
    else if not (is_unknown (actor_of auto))
    then codes "medium"
    else codes "low"

-- AssessAt
unfoldable pub assess_at : Config → (List ℕ → ℕ) → Request → Session → ℕ → Assessment
unfolding evidence clamp classify actor_of confidence_of
assess_at cfg deviation r ss now =
    let e = evidence deviation r ss now in
    let risk = clamp (pos (above_zero (ss.risk_score -ℤ pos 2) + e.risk)) (pos 0) (pos 100) in
    let auto = clamp (decayed ss.automation_score +ℤ difference e.plus e.minus) (pos 0) (pos 100) in
    let enough = leb 3 (ss.request_count + 1) in
    record {
      risk = risk;
      automation = auto;
      classification = classify cfg risk;
      actor = if enough then actor_of auto else unknown;
      confidence = if enough then confidence_of auto else codes "low";
      category = e.category;
      persona = e.persona;
    }
