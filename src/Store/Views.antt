-- ===== src/Store/Views.antt =====
-- The list of events that the panel asks for (`Events` of internal/store/store.go): the newest first, no
-- more than asked, of one target if one is named.
use mathlib.Core.List.{reverse, reverse-cons, reverse-append}
use zent_loop.Common.{
  ℕ, zero, suc, ◌-◌, ◌≤◌, Bool, false, ◌||◌, List, [], ◌∷◌, ◌++◌, Bytes, bytes_eq, nat_eq, ◌==◌,
  if◌then◌else◌, length, take, drop, length-append, length-drop, take-append-drop,
  take_of_length-le, ap, sym, not, ◌∙◌, Map, trim_space, Bool-cases, ◌≡◌, refl, arith, inl, inr,
  ltb,
}
use zent_loop.Trusted.{Net, TrustedDomain, target_filter_matches}
use zent_loop.Store.{Event, Counters, max_ring, push_event, add_event, count_catch_all}

-- The test of the loop: any event if no target is named, or those under the target.
unfoldable pub is_wanted : Net → Map Bytes TrustedDomain → Bytes → Event → Bool
unfolding target_filter_matches
is_wanted net trusted target e =
    let raw = if e.target == [] then e.request_host else e.target in
    (target == []) || target_filter_matches net raw target trusted

-- The loop, over the events from the newest on, while fewer than the limit are found.
unfoldable pub newest : (Event → Bool) → ℕ → List Event → List Event
newest wanted zero es = []
newest wanted (suc n) [] = []
newest wanted (suc n) (e ∷ es) =
    let rest = newest wanted (if wanted e then n else suc n) es in
    if wanted e then e ∷ rest else rest

-- Events, where a limit of 0 asks for all and an empty target for every target.
unfoldable pub events : Net → Map Bytes TrustedDomain → ℕ → Bytes → Counters → List Event
unfolding is_wanted newest
events net trusted limit target c =
    let wanted = is_wanted net trusted (trim_space target) in
    newest wanted (if limit == 0 then length c.events else limit) (reverse c.events)

-- The events that pass a test.
unfoldable pub keep_events : (Event → Bool) → List Event → List Event
keep_events wanted [] = []
keep_events wanted (e ∷ es) =
    let rest = keep_events wanted es in if wanted e then e ∷ rest else rest

newest-keep_events :
    (wanted : Event → Bool) (n : ℕ) (es : List Event)
    → newest wanted n es ≡ take n (keep_events wanted es)
unfolding newest keep_events
newest-keep_events wanted zero es = refl
newest-keep_events wanted (suc n) [] = refl
newest-keep_events wanted (suc n) (e ∷ es) = elim (Bool-cases (wanted e)) [
  | inl counts ↦ rw (counts, newest-keep_events wanted n es)
  | inr passed ↦ rw (passed, newest-keep_events wanted (suc n) es)
]

length-keep_events :
    (wanted : Event → Bool) (es : List Event) → length (keep_events wanted es) ≤ length es
unfolding keep_events
length-keep_events wanted [] = omega arith
length-keep_events wanted (e ∷ es) = elim (Bool-cases (wanted e)) [
  | inl counts ↦ rw counts (omega (arith, length-keep_events wanted es))
  | inr passed ↦ rw passed (omega (arith, length-keep_events wanted es))
]

length-reverse : (es : List Event) → length (reverse es) ≡ length es
length-reverse [] = refl
length-reverse (e ∷ es) =
    rw (reverse-cons e es) (omega (arith, length-append (reverse es) (e ∷ []), length-reverse es))

take-append : (k : ℕ) (xs ys : List Event) → length xs ≡ k → take k (xs ++ ys) ≡ xs
take-append zero [] ys exact = refl
take-append zero (x ∷ xs) ys exact = absurd (omega arith)
take-append (suc k) [] ys exact = absurd (omega arith)
take-append (suc k) (x ∷ xs) ys exact = rw (take-append k xs ys (omega arith))

-- The last events of a list, the newest first, are the first of the list the other way round.
reverse-drop :
    (k : ℕ) (es : List Event)
    → k ≤ length es
    → reverse (drop (length es - k) es) ≡ take k (reverse es)
reverse-drop k es enough =
    let j = length es - k in
    let last = drop j es in
    let whole : reverse es ≡ reverse last ++ reverse (take j es) =
      ap reverse (sym (take-append-drop j es)) ∙ reverse-append (take j es) last in
    sym (
      ap (take k) whole
      ∙ take-append k (reverse last) (reverse (take j es))
          (omega (arith, length-reverse last, length-drop j es)))

reverse-push_event :
    (e : Event) (es : List Event) → reverse (push_event e es) ≡ take max_ring (e ∷ reverse es)
unfolding push_event
reverse-push_event e es =
    let all = es ++ e ∷ [] in
    let turned : reverse all ≡ e ∷ reverse es = reverse-append es (e ∷ []) in
    elim (Bool-cases (ltb max_ring (length all))) [
      | inl more ↦ rw more (reverse-drop max_ring all (ground arith) ∙ ap (take max_ring) turned)
      | inr room ↦ rw room (
          sym (
            ap (take max_ring) (sym turned)
            ∙ take_of_length-le max_ring (reverse all) (ground (arith, length-reverse all))))
    ]

events-count_catch_all : (e : Event) (c : Counters) → (count_catch_all e c).events ≡ c.events
unfolding count_catch_all
events-count_catch_all e c = elim (Bool-cases (not e.catch_all)) [
  | inl routed ↦ rw routed refl
  | inr caught ↦ rw caught refl
]

events-kept :
    (net : Net) (e : Event) (c : Counters) → (add_event net e c).events ≡ push_event e c.events
unfolding add_event
events-kept net e c = events-count_catch_all e _

-- The first so many of the rows, or all of them for the limit 0.
unfoldable pub limited : ℕ → List Event → List Event
limited zero es = es
limited (suc n) es = take (suc n) es

-- The rows are those that the filter of the target passes, from the newest event on, up to the limit.
events-keep_events :
    (net : Net) (trusted : Map Bytes TrustedDomain) (limit : ℕ) (target : Bytes) (c : Counters)
    → events net trusted limit target c
      ≡ limited limit (keep_events (is_wanted net trusted (trim_space target)) (reverse c.events))
unfolding events limited
events-keep_events net trusted zero target c =
    let wanted = is_wanted net trusted (trim_space target) in
    newest-keep_events wanted (length c.events) (reverse c.events)
    ∙ take_of_length-le (length c.events) (keep_events wanted (reverse c.events))
        (omega (arith, length-keep_events wanted (reverse c.events), length-reverse c.events))
events-keep_events net trusted (suc n) target c =
    let some_limit : (suc n == 0) ≡ false = ground arith in
    rw some_limit
      (newest-keep_events (is_wanted net trusted (trim_space target)) (suc n) (reverse c.events))

-- After an event is added, the list of events for a target shows, up to the limit if there is one, the
-- events under the target among the new event and the events before it, the newest first, of which the
-- store holds 5000 with the new one.
pub events-add_event :
    (net : Net) (trusted : Map Bytes TrustedDomain) (limit : ℕ) (target : Bytes) (e : Event)
    (c : Counters)
    → events net trusted limit target (add_event net e c)
      ≡ limited limit (
          keep_events
            (is_wanted net trusted (trim_space target))
            (take max_ring (e ∷ reverse c.events)))
events-add_event net trusted limit target e c =
    let shown : List Event → List Event =
      λ es. limited limit (keep_events (is_wanted net trusted (trim_space target)) es) in
    events-keep_events net trusted limit target (add_event net e c)
    ∙ ap shown (ap reverse (events-kept net e c) ∙ reverse-push_event e c.events)
