-- ===== src/Scorer/Scores.antt =====
-- The bounds of the scores, and what a signal is worth.
use zent_loop.Common.{
  ℕ, ◌+◌, ◌≤◌, Bool, true, false, not, ◌||◌, List, [], ◌∷◌, ◌++◌, Bytes, bytes_eq, nat_eq, leb,
  ◌==◌, length, codes, to_lower, trim_space, contains, if_rule, ◌≡◌, refl, ◌∙◌, arith, ◌⊎◌, inl, ℤ,
  pos, above_zero, difference, ◌+ℤ◌, ◌-ℤ◌, ◌≤ℤ◌, ltb_ℤ, inr,
}
use zent_loop.Scorer.{
  Request, Session, Config, hostile, Evidence, max, clamp, see_signal, see_signals, see_all_signals,
  text_of, no_evidence, contains_one, when, plus_by, minus_by, audit_found, measurement_found,
  scanner_found, method_found, is_audit, see_language, see_agent, see_method, see_headers,
  see_times, evidence, classify, decayed, assess_at, newest, sort_times,
}
use zent_loop.Scorer.Signals.{Signal, path_signals, payload_signals, scanner_uas, measurement_uas}

-- A signal of the list stands in the text.
abbrev pub Seen : Bytes → Signal → List Signal → Type 0
Seen text sig [] = ⊥
Seen text sig (s ∷ sigs) = ((s ≡ sig) × (contains text sig.needle ≡ true)) ⊎ Seen text sig sigs

see_signal-grows :
    (keep : Bool) (text : Bytes) (sig : Signal) (e : Evidence)
    → e.risk ≤ (see_signal keep text sig e).risk
see_signal-grows keep text sig e =
    if_rule (λ (r : Evidence). e.risk ≤ r.risk) (contains text sig.needle) _ _ (λ _. ground arith)
      (λ _. omega arith)

see_signals-grows :
    (keep : Bool) (text : Bytes) (sigs : List Signal) (e : Evidence)
    → e.risk ≤ (see_signals keep text sigs e).risk
unfolding see_signals
see_signals-grows keep text [] e = omega arith
see_signals-grows keep text (s ∷ sigs) e = omega (
  arith,
  see_signal-grows keep text s e,
  see_signals-grows keep text sigs (see_signal keep text s e),
)

see_signals-Seen :
    (keep : Bool) (text : Bytes) (sig : Signal) (sigs : List Signal) (e : Evidence)
    → Seen text sig sigs
    → sig.weight ≤ (see_signals keep text sigs e).risk
unfolding see_signals
see_signals-Seen keep text sig [] e seen = elim seen [ ]
see_signals-Seen keep text sig (s ∷ sigs) e (inl (same, found)) =
    omega (arith, worth, see_signals-grows keep text sigs (see_signal keep text s e))
  where
    worth : sig.weight ≤ (see_signal keep text s e).risk
    worth = rw (same, found) (ground arith)
see_signals-Seen keep text sig (s ∷ sigs) e (inr seen) =
    see_signals-Seen keep text sig sigs (see_signal keep text s e) seen

when-grows :
    (b : Bool) (f : Evidence → Evidence) (e : Evidence)
    → e.risk ≤ (f e).risk
    → e.risk ≤ (when b f e).risk
when-grows true f e h = h
when-grows false f e h = omega arith

see_agent-grows : (r : Request) (e : Evidence) → e.risk ≤ (see_agent r e).risk
unfolding see_agent
see_agent-grows r e =
    let ua = to_lower r.user_agent in
    let audited = when (is_audit r) audit_found e in
    let measured = when (contains_one ua measurement_uas) measurement_found audited in
    omega (
      arith,
      when-grows (is_audit r) audit_found e (max_le e.risk),
      when-grows (contains_one ua measurement_uas) measurement_found audited (omega arith),
      when-grows (contains_one ua scanner_uas) scanner_found measured (omega arith),
    )
  where
    max_le : (n : ℕ) → n ≤ max n 48
    max_le n = ground arith

see_method-grows : (r : Request) (e : Evidence) → e.risk ≤ (see_method r e).risk
unfolding see_method
see_method-grows r e =
    when-grows ((r.method == codes "TRACE") || (r.method == codes "CONNECT")) method_found e
      (omega arith)

when_kept :
    (b : Bool) (f : Evidence → Evidence) (e : Evidence)
    → (f e).risk ≡ e.risk
    → (when b f e).risk ≡ e.risk
when_kept true f e h = h
when_kept false f e h = refl

see_language_kept : (r : Request) (e : Evidence) → (see_language r e).risk ≡ e.risk
see_language_kept r e =
    if_rule (λ (f : Evidence). f.risk ≡ e.risk) (not (r.accept_language == [])) _ _ (λ _. refl)
      (λ _. when_kept (r.sec_fetch_mode == []) (plus_by 8) e refl)

see_headers_kept : (r : Request) (e : Evidence) → (see_headers r e).risk ≡ e.risk
unfolding see_headers
see_headers_kept r e =
    let named = when (trim_space r.user_agent == []) (plus_by 12) e in
    let fetches = not (r.sec_fetch_site == []) || not (r.sec_fetch_mode == []) in
    see_language_kept r (when fetches (minus_by 8) named)
    ∙ when_kept fetches (minus_by 8) named refl
    ∙ when_kept (trim_space r.user_agent == []) (plus_by 12) e refl

see_times_kept :
    (deviation : List ℕ → ℕ) (recent : List ℕ) (now : ℕ) (e : Evidence)
    → (see_times deviation recent now e).risk ≡ e.risk
unfolding see_times
see_times_kept deviation recent now e =
    if_rule (λ (r : Evidence). r.risk ≡ e.risk)
      (leb 3 (length (newest 12 (sort_times (recent ++ now ∷ []))))) _ _ (λ _. refl) (λ _. refl)

see_lists-Seen :
    (text : Bytes) (sig : Signal) (ps qs : List Signal) (e : Evidence)
    → Seen text sig ps ⊎ Seen text sig qs
    → sig.weight ≤ (see_signals true text qs (see_signals false text ps e)).risk
see_lists-Seen text sig ps qs e (inl seen) = omega (
  arith,
  see_signals-Seen false text sig ps e seen,
  see_signals-grows true text qs (see_signals false text ps e),
)
see_lists-Seen text sig ps qs e (inr seen) =
    see_signals-Seen true text sig qs (see_signals false text ps e) seen

see_all_signals-Seen :
    (text : Bytes) (sig : Signal) (e : Evidence)
    → Seen text sig path_signals ⊎ Seen text sig payload_signals
    → sig.weight ≤ (see_all_signals text e).risk
unfolding see_all_signals
see_all_signals-Seen text sig e seen = see_lists-Seen text sig path_signals payload_signals e seen

module _ (deviation : List ℕ → ℕ) (r : Request) (ss : Session) (now : ℕ) where
  behind_signals :
      (e : Evidence)
      → e.risk
        ≤ (see_times deviation ss.recent_times now
            (see_headers r (see_method r (see_agent r e)))).risk
  behind_signals e =
      let headers = see_headers r (see_method r (see_agent r e)) in
      omega (
        arith,
        see_agent-grows r e,
        see_method-grows r (see_agent r e),
        see_headers_kept r (see_method r (see_agent r e)),
        see_times_kept deviation ss.recent_times now headers,
      )

  evidence-Seen :
      (sig : Signal)
      → Seen (text_of r) sig path_signals ⊎ Seen (text_of r) sig payload_signals
      → sig.weight ≤ (evidence deviation r ss now).risk
  unfolding evidence
  evidence-Seen sig seen =
      let e = see_all_signals (text_of r) (no_evidence ss) in
      omega (arith, see_all_signals-Seen (text_of r) sig (no_evidence ss) seen, behind_signals e)

abbrev in_range : ℤ → ℤ
in_range v = clamp v (pos 0) (pos 100)

clamp-within : (v : ℤ) → (pos 0 ≤ℤ in_range v) × (in_range v ≤ℤ pos 100)
unfolding clamp
clamp-within v = ground arith

clamp_mono : (v w : ℤ) → v ≤ℤ w → in_range v ≤ℤ in_range w
unfolding clamp
clamp_mono v w h = ground arith

-- A score that is lowered by two at most, and raised, falls by two at most.
clamp-falls : (v : ℤ) (n : ℕ) → in_range v ≤ℤ in_range (pos (above_zero (v -ℤ pos 2) + n)) +ℤ pos 2
unfolding clamp
clamp-falls v n = ground arith

classify-hostile :
    (cfg : Config) (v risk : ℤ)
    → v ≤ℤ risk
    → (ltb_ℤ v cfg.hostile_threshold ≡ true) ⊎ (classify cfg risk ≡ hostile)
unfolding classify
classify-hostile cfg v risk h = ground arith

module _ (cfg : Config) (deviation : List ℕ → ℕ) (r : Request) (ss : Session) (now : ℕ) where
  -- Whatever the request and whatever scores the session has, both scores of its assessment are between
  -- 0 and 100, and the risk of a session, put between 0 and 100, falls by two at most.
  pub assess_at_bounds :
      let a = assess_at cfg deviation r ss now in
      (pos 0 ≤ℤ a.risk)
      × (a.risk ≤ℤ pos 100)
      × (pos 0 ≤ℤ a.automation)
      × (a.automation ≤ℤ pos 100)
      × (clamp ss.risk_score (pos 0) (pos 100) ≤ℤ a.risk +ℤ pos 2)
  unfolding assess_at
  assess_at_bounds =
      let e = evidence deviation r ss now in
      let risk = clamp-within (pos (above_zero (ss.risk_score -ℤ pos 2) + e.risk)) in
      let auto = clamp-within (decayed ss.automation_score +ℤ difference e.plus e.minus) in
      (risk.0, risk.1, auto.0, auto.1, clamp-falls ss.risk_score e.risk)

  -- A signal that stands in the path, the query or the body of a request makes the session at once at
  -- least as risky as the signal weighs, up to 100; unless that is below the threshold, the session is
  -- hostile, whatever it did before.
  pub assess_at-Seen :
      (sig : Signal)
      → Seen (text_of r) sig path_signals ⊎ Seen (text_of r) sig payload_signals
      → let a = assess_at cfg deviation r ss now in
        let worth = clamp (pos sig.weight) (pos 0) (pos 100) in
        (worth ≤ℤ a.risk)
        × ((ltb_ℤ worth cfg.hostile_threshold ≡ true) ⊎ (a.classification ≡ hostile))
  unfolding assess_at
  assess_at-Seen sig seen =
      let e = evidence deviation r ss now in
      let raised = pos (above_zero (ss.risk_score -ℤ pos 2) + e.risk) in
      let worth =
        clamp_mono (pos sig.weight) raised
          (omega (arith, evidence-Seen deviation r ss now sig seen)) in
      (worth, classify-hostile cfg (in_range (pos sig.weight)) (in_range raised) worth)
