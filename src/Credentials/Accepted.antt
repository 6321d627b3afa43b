-- ===== src/Credentials/Accepted.antt =====
-- What an accepted password leaves in the credential store.
use zent_loop.Common.{
  ℕ, Bool, true, false, not, ◌&&◌, [], Bytes, bytes_eq, nat_eq, none, leb, ◌==◌, length, ◌≡◌, ◌≢◌,
  refl, sym, arith, ◌⊎◌, inl, inr, Bool-cases, Option-cases, if_rule, bytes_beq_iff,
  lookup-insert_self, ◌∙◌,
}
use zent_loop.Credentials.{
  Store, touch, pool, normal, fingerprint, credential_status, establish_credential, see_slot,
  source_credential_status, bind_source_credential, binding_key,
}
use zent_loop.Credentials.Normal.{normal_idem}
use zent_loop.Credentials.Pools.{has_slot, touch-some}
use zent_loop.Credentials.Establish.{
  establish_credential-Keeps, establish_credential-bindings, fingerprint_of_key, is_fit,
}
use zent_loop.Credentials.Policy.{
  Attempt, Verdict, accepted_existing, accepted_legacy_sticky, accepted_new_slot,
  trap_credential_decision, decide_source, decide_status, decide_new, establish, bind_new, screen,
  sticky_user, is_candidate,
}
use zent_loop.Credentials.Sources.{
  IsBound, Agrees, Binds, SourceAnswer, bind-Binds, source_credential_status-SourceAnswer,
}

Agrees-transport :
    (key fp fq : Bytes) (s t : Store)
    → fp ≡ fq
    → s.bindings ≡ t.bindings
    → Agrees key fp s
    → Agrees key fq t
Agrees-transport key fp fq s t e same agrees = rw (← e, ← same) agrees

Binds-transport :
    (key fp fq : Bytes) (u s t : Store)
    → fp ≡ fq
    → u.bindings ≡ s.bindings
    → Binds key fp u t
    → Binds key fq s t
Binds-transport key fp fq u s t e same binds =
    (rw (← e) binds.0, λ room. rw (← e) (binds.1 (rw same room)))

module _ (mac : Bytes → Bytes → Bytes) where
  -- The two checks of the pool: a match keeps the slot, and no match changes nothing.
  abbrev pub StatusAnswer : Bytes → Bytes → Store → (Bool × Bool) × Store → Type 0
  StatusAnswer user fp s r =
      ((r.0.1 ≡ false) × (r.1 ≡ s))
      ⊎ ((r.0 ≡ (true, true))
          × (fp ≢ [])
          × (has_slot fp (pool user r.1) ≡ true)
          × (r.1.bindings ≡ s.bindings)
          × (r.1.key ≡ s.key))

  see_slot-StatusAnswer :
      (user fp : Bytes) (now : ℕ) (s : Store)
      → (fp == []) ≡ false
      → StatusAnswer user fp s (see_slot mac user (touch fp now (pool user s)) s)
  see_slot-StatusAnswer user fp now s signed = elim (Option-cases (touch fp now (pool user s))) [
    | inl gone ↦ rw gone (inl (refl, refl))
    | inr (t, found) ↦
        let (has, same, long) = touch-some fp now (pool user s) t found in
        rw found (
          inr (
            refl,
            ground (arith, bytes_beq_iff fp []),
            rw lookup-insert_self (rw (same fp) has),
            refl,
            refl,
          ))
  ]

  credential_status-StatusAnswer :
      (name password : Bytes) (now : ℕ) (s : Store)
      → StatusAnswer
          (normal name)
          (fingerprint mac s (normal name) password)
          s
          (credential_status mac name password now s)
  unfolding credential_status
  credential_status-StatusAnswer name password now s =
      let fp = fingerprint mac s (normal name) password in
      if_rule (StatusAnswer (normal name) fp s) (length (pool (normal name) s) == 0) _ _
        (λ _. inl (refl, refl))
        (λ _.
          if_rule (StatusAnswer (normal name) fp s) (fp == []) _ _ (λ _. inl (refl, refl))
            (λ signed. see_slot-StatusAnswer (normal name) fp now s signed))

  -- What an accepted attempt leaves behind.
  abbrev pub Leaves : Bytes → Attempt → Store → Store → Type 0
  Leaves user a s t =
      (has_slot (fingerprint mac s user a.password) (pool user t) ≡ true)
      × (t.key ≡ s.key)
      × (fingerprint mac s user a.password ≢ [])
      × Binds (binding_key a.remote user) (fingerprint mac s user a.password) s t

  bind_new_refused :
      (user : Bytes) (a : Attempt) (verdict : Verdict) (p : Bool × Store)
      → p.0 ≡ false
      → (bind_new mac user a verdict p).0.0 ≡ false
  bind_new_refused user a verdict (true, s) h = cc
  bind_new_refused user a verdict (false, s) h = refl

  bind_new-Leaves :
      (user : Bytes) (a : Attempt) (verdict : Verdict) (s : Store) (p : Bool × Store)
      → normal user ≢ []
      → fingerprint mac s user a.password ≢ []
      → Agrees (binding_key a.remote user) (fingerprint mac s user a.password) s
      → (p.0 ≡ true
          → (has_slot (fingerprint mac s user a.password) (pool user p.1) ≡ true)
            × (p.1.key ≡ s.key))
      → p.1.bindings ≡ s.bindings
      → (bind_new mac user a verdict p).0.0 ≡ true
      → Leaves user a s (bind_new mac user a verdict p).1
  bind_new-Leaves user a verdict s (false, u) named signed agrees slot same h = cc
  bind_new-Leaves user a verdict s (true, u) named signed agrees slot same h =
      let (has, key) = slot refl in
      let print = fingerprint_of_key mac s u user a.password key in
      let (bound, pools, key2) =
        bind-Binds mac a.remote user a.password a.bind_at a.bound u named (rw print signed)
          (Agrees-transport _ _ _ s u (sym print) (sym same) agrees) in
      (
        rw pools has,
        key2 ∙ key,
        signed,
        Binds-transport _ _ _ u s
            (bind_source_credential mac a.remote user a.password a.bind_at a.bound u).1 print same
            bound,
      )

  print_of_fit :
      (user : Bytes) (a : Attempt) (s : Store)
      → normal user ≡ user
      → is_fit mac user a.password s ≡ true
      → fingerprint mac s user a.password ≢ []
  print_of_fit user a s norm fit =
      let signed : (fingerprint mac s (normal user) a.password == []) ≡ false = ground arith in
      ground (arith, norm, bytes_beq_iff (fingerprint mac s user a.password) [])

  establish-Leaves :
      (user : Bytes) (a : Attempt) (verdict : Verdict) (s : Store)
      → normal user ≡ user
      → Agrees (binding_key a.remote user) (fingerprint mac s user a.password) s
      → (establish mac user a verdict s).0.0 ≡ true
      → Leaves user a s (establish mac user a verdict s).1
  establish-Leaves user a verdict s norm agrees h =
      elim (Bool-cases
        (establish_credential mac user a.password a.establish_at a.established s).0) [
          | inr refused ↦ cc (
            h,
            bind_new_refused user a verdict
                (establish_credential mac user a.password a.establish_at a.established s) refused,
          )
          | inl granted ↦
              let (fit, (has, kept, key)) =
                establish_credential-Keeps mac user a.password a.establish_at a.established s
                  granted in
              bind_new-Leaves user a verdict s _ (ground (arith, bytes_beq_iff (normal user) []))
                (print_of_fit user a s norm fit) agrees (λ _. ((rw norm at has), key))
                (establish_credential-bindings mac user a.password a.establish_at a.established s) h
        ]

  decide_new-Leaves :
      (user : Bytes) (a : Attempt) (known : Bool) (s : Store)
      → normal user ≡ user
      → Agrees (binding_key a.remote user) (fingerprint mac s user a.password) s
      → (decide_new mac user a known s).0.0 ≡ true
      → Leaves user a s (decide_new mac user a known s).1
  decide_new-Leaves user a known s norm agrees h =
      elim (Bool-cases ((sticky_user a.profile.recent_accepted_users == user) && not known)) [
        | inl legacy ↦
            rw legacy
              (establish-Leaves user a accepted_legacy_sticky s norm agrees (rw legacy at h))
        | inr fresh ↦ elim (Bool-cases (leb 30 a.profile.unique_users)) [
          | inl spray ↦ cc (rw (fresh, spray) at h)
          | inr quiet ↦ elim (Bool-cases (is_candidate user a)) [
            | inl candidate ↦
                rw (fresh, quiet, candidate)
                  (establish-Leaves user a accepted_new_slot s norm agrees
                    (rw (fresh, quiet, candidate) at h))
            | inr other ↦ cc (rw (fresh, quiet, other) at h)
          ]
        ]
      ]

  decide_status-Leaves :
      (user : Bytes) (a : Attempt) (bound : Bool) (s : Store) (r : (Bool × Bool) × Store)
      → normal user ≡ user
      → normal user ≢ []
      → Agrees (binding_key a.remote user) (fingerprint mac s user a.password) s
      → (bound ≡ true → IsBound (binding_key a.remote user) (fingerprint mac s user a.password) s)
      → StatusAnswer user (fingerprint mac s user a.password) s r
      → (decide_status mac user a bound r).0.0 ≡ true
      → Leaves user a s (decide_status mac user a bound r).1
  decide_status-Leaves user a true s ((known, false), u) norm named agrees is_bound
        (inl (miss, same)) h =
      rw same (decide_new-Leaves user a known s norm agrees (rw same at h))
  decide_status-Leaves user a false s ((known, false), u) norm named agrees is_bound
        (inl (miss, same)) h =
      rw same (decide_new-Leaves user a known s norm agrees (rw same at h))
  decide_status-Leaves user a bound s ((known, true), u) norm named agrees is_bound
        (inl (miss, same)) h =
      cc
  decide_status-Leaves user a bound s ((known, false), u) norm named agrees is_bound (inr hit) h =
      cc hit.0
  decide_status-Leaves user a true s ((known, true), u) norm named agrees is_bound (inr hit) h =
      let (e, signed, has, same, key) = hit in
      (
        has,
        key,
        signed,
        (Agrees-transport _ _ _ s u refl (sym same) agrees, λ room. rw same (is_bound refl)),
      )
  decide_status-Leaves user a false s ((known, true), u) norm named agrees is_bound (inr hit) h =
      let (e, signed, has, same, key) = hit in
      bind_new-Leaves user a accepted_existing s (true, u) named signed agrees (λ _. (has, key))
        same h

  status_answer :
      (user : Bytes) (a : Attempt) (s : Store)
      → normal user ≡ user
      → StatusAnswer user
          (fingerprint mac s user a.password)
          s
          (credential_status mac user a.password a.status_at s)
  status_answer user a s norm =
      let answer = credential_status-StatusAnswer user a.password a.status_at s in
      (rw norm at answer)

  Leaves-transport :
      (user : Bytes) (a : Attempt) (s u t : Store)
      → u.key ≡ s.key
      → length u.bindings ≡ length s.bindings
      → Leaves user a u t
      → Leaves user a s t
  Leaves-transport user a s u t key size (has, key2, signed, (agrees, bound)) =
      let print = sym (fingerprint_of_key mac s u user a.password key) in
      (
        rw print has,
        key2 ∙ key,
        rw print signed,
        (rw print agrees, λ room. rw print (bound (rw size room))),
      )

  -- The source's answer, then the pool's.
  decide_source-Leaves :
      (user : Bytes) (a : Attempt) (s : Store) (r : (Bool × Bool) × Store)
      → normal user ≡ user
      → normal user ≢ []
      → SourceAnswer mac a.remote user a.password s r
      → (decide_source mac user a r).0.0 ≡ true
      → Leaves user a s (decide_source mac user a r).1
  decide_source-Leaves user a s r norm named (inl (same, absent)) h = rw same (
      decide_status-Leaves user a false s (credential_status mac user a.password a.status_at s) norm
        named (inl absent) (λ e. cc) (status_answer user a s norm) (rw same at h))
  decide_source-Leaves user a s ((false, m), u) norm named (inr (inl e)) h = cc
  decide_source-Leaves user a s ((true, false), u) norm named (inr (inl e)) h = cc
  decide_source-Leaves user a s ((true, true), u) norm named (inr (inl e)) h = cc
  decide_source-Leaves user a s ((false, m), u) norm named (inr (inr found)) h = cc found.0
  decide_source-Leaves user a s ((true, false), u) norm named (inr (inr found)) h = cc
  decide_source-Leaves user a s ((true, true), u) norm named (inr (inr found)) h =
      let (e, bound, pools, key, size) = found in
      let print = fingerprint_of_key mac s u user a.password key in
      let bound2 : IsBound (binding_key a.remote user) (fingerprint mac u user a.password) u =
        rw print bound in
      Leaves-transport user a s u _ key size (
        decide_status-Leaves user a true u (credential_status mac user a.password a.status_at u)
          norm named (inr bound2) (λ _. bound2) (status_answer user a u norm) h)

  -- What follows when the policy lets the attempt through to the credential store.
  pub decision_of_screen :
      (a : Attempt) (s : Store)
      → screen (normal a.user) a ≡ none
      → trap_credential_decision mac a s
        ≡ decide_source mac
            (normal a.user)
            a
            (source_credential_status mac a.remote (normal a.user) a.password a.source_at s)
  unfolding trap_credential_decision
  decision_of_screen a s h = rw h refl

  pub screen_named : (user : Bytes) (a : Attempt) → screen user a ≡ none → user ≢ []
  unfolding screen
  screen_named user a h = ground (arith, bytes_beq_iff user [])

  pub screened :
      (a : Attempt) (s : Store)
      → (trap_credential_decision mac a s).0.0 ≡ true
      → screen (normal a.user) a ≡ none
  unfolding trap_credential_decision
  screened a s h = elim (Option-cases (screen (normal a.user) a)) [
    | inl clear ↦ clear
    | inr (verdict, refused) ↦ cc (rw refused at h)
  ]

  pub accepted-Leaves :
      (a : Attempt) (s : Store)
      → (trap_credential_decision mac a s).0.0 ≡ true
      → Leaves (normal a.user) a s (trap_credential_decision mac a s).1
  accepted-Leaves a s h =
      let user = normal a.user in
      let clear = screened a s h in
      let norm = normal_idem a.user in
      let named : normal user ≢ [] = rw norm (screen_named user a clear) in
      rw (decision_of_screen a s clear) (
        decide_source-Leaves user a s _ norm named
          (source_credential_status-SourceAnswer mac a.remote user a.password a.source_at s)
          (rw (decision_of_screen a s clear) at h))
