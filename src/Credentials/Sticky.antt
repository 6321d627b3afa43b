-- ===== src/Credentials/Sticky.antt =====
-- What an accepted password means for the next attempts of the source.
use zent_loop.Common.{
  ◌<◌, Bool, true, false, [], Bytes, bytes_eq, nat_eq, none, some, length, ◌≡◌, ◌≢◌, refl, arith,
  inl, inr, Option-cases, bytes_beq_iff,
}
use zent_loop.Credentials.{
  Store, pool, normal, fingerprint, max_bindings, credential_status, source_credential_status,
  binding_key,
}
use zent_loop.Credentials.Normal.{normal_idem}
use zent_loop.Credentials.Pools.{has_slot}
use zent_loop.Credentials.Establish.{status_of_has, fingerprint_of_key, is_fit}
use zent_loop.Credentials.Policy.{
  Attempt, Verdict, accepted_existing, trap_credential_decision, decide_source, decide_status,
  screen,
}
use zent_loop.Credentials.Sources.{
  IsBound, Agrees, source_of_IsBound, source_absent, source_of_other,
}
use zent_loop.Credentials.Accepted.{accepted-Leaves, decision_of_screen}

module _ (mac : Bytes → Bytes → Bytes) where
  screen_fit :
      (user : Bytes) (b : Attempt) (t : Store)
      → normal user ≡ user
      → screen user b ≡ none
      → fingerprint mac t user b.password ≢ []
      → is_fit mac user b.password t ≡ true
  unfolding screen
  screen_fit user b t norm clear signed =
      ground (arith, norm, bytes_beq_iff (fingerprint mac t user b.password) [])

  decide_status_hit :
      (user : Bytes) (b : Attempt) (bound : Bool) (r : (Bool × Bool) × Store)
      → r.0 ≡ (true, true)
      → (decide_status mac user b bound r).0 ≡ (true, accepted_existing)
  decide_status_hit user b true ((known, true), u) hit = refl
  decide_status_hit user b false ((known, true), u) hit = refl
  decide_status_hit user b bound ((known, false), u) hit = cc

  -- The password of a slot whose source is bound to no other.
  abbrev Held : Bytes → Attempt → Store → Type 0
  Held user b t =
      (is_fit mac user b.password t ≡ true)
      × (has_slot (fingerprint mac t user b.password) (pool user t) ≡ true)

  status_of_Held :
      (user : Bytes) (b : Attempt) (t : Store)
      → normal user ≡ user
      → Held user b t
      → (credential_status mac user b.password b.status_at t).0 ≡ (true, true)
  status_of_Held user b t norm (fit, has) =
      status_of_has mac user b.password b.status_at t fit (rw norm has)

  decide_source_hit :
      (user : Bytes) (b : Attempt) (r : (Bool × Bool) × Store)
      → normal user ≡ user
      → r.0 ≡ (true, true)
      → Held user b r.1
      → (decide_source mac user b r).0 ≡ (true, accepted_existing)
  decide_source_hit user b ((true, true), u) norm hit held =
      decide_status_hit user b true _ (status_of_Held user b u norm held)
  decide_source_hit user b ((true, false), u) norm hit held = cc
  decide_source_hit user b ((false, m), u) norm hit held = cc

  Held-transport :
      (user : Bytes) (b : Attempt) (t u : Store)
      → u.pools ≡ t.pools
      → u.key ≡ t.key
      → Held user b t
      → Held user b u
  Held-transport user b t u pools key (fit, has) = (
    rw (fingerprint_of_key mac t u (normal user) b.password key) fit,
    rw (fingerprint_of_key mac t u user b.password key, pools) has,
  )

  again_of_Agrees :
      (user : Bytes) (b : Attempt) (t : Store)
      → normal user ≡ user
      → Held user b t
      → fingerprint mac t user b.password ≢ []
      → Agrees (binding_key b.remote user) (fingerprint mac t user b.password) t
      → (decide_source mac user b
          (source_credential_status mac b.remote user b.password b.source_at t)).0
        ≡ (true, accepted_existing)
  again_of_Agrees user b t norm held signed (inl absent) =
      rw (source_absent mac b.remote user b.password b.source_at t absent)
        (decide_status_hit user b false _ (status_of_Held user b t norm held))
  again_of_Agrees user b t norm held signed (inr bound) =
      let (hit, pools, key) =
        source_of_IsBound mac b.remote user b.password b.source_at t signed bound in
      decide_source_hit user b _ norm hit (Held-transport user b t _ pools key held)

  -- An attempt with the same password by the same source under the same name.
  abbrev pub SameLogin : Attempt → Attempt → Type 0
  SameLogin a b = (b.remote ≡ a.remote) × (b.user ≡ a.user) × (b.password ≡ a.password)

  -- The attempt right after one that was accepted, with nothing decided in between, is accepted as an
  -- existing credential if it comes from the same source with the same password for the same account
  -- and the checks before the credential store let it through.
  pub accepted_again :
      (a b : Attempt) (s : Store)
      → (trap_credential_decision mac a s).0.0 ≡ true
      → SameLogin a b
      → screen (normal b.user) b ≡ none
      → (trap_credential_decision mac b (trap_credential_decision mac a s).1).0
        ≡ (true, accepted_existing)
  accepted_again a b s h (remote, user, password) clear =
      let t = (trap_credential_decision mac a s).1 in
      let name = normal b.user in
      let norm = normal_idem b.user in
      let (has, key, signed, (agrees, bound)) = accepted-Leaves mac a s h in
      let print : fingerprint mac s (normal a.user) a.password ≡ fingerprint mac t name b.password =
        rw (user, password, fingerprint_of_key mac s t (normal a.user) a.password key) refl in
      let signed2 : fingerprint mac t name b.password ≢ [] = rw (← print) signed in
      rw (decision_of_screen mac b t clear) (
        again_of_Agrees name b t norm
          (screen_fit name b t norm clear signed2, rw (← print, user) has) signed2
          (rw (← print, remote, user) agrees))

  decision_barred :
      (b : Attempt) (t : Store) (verdict : Verdict)
      → screen (normal b.user) b ≡ some verdict
      → trap_credential_decision mac b t ≡ ((false, verdict), t)
  unfolding trap_credential_decision
  decision_barred b t verdict barred = rw barred refl

  decide_source_conflict :
      (user : Bytes) (b : Attempt) (r : (Bool × Bool) × Store)
      → r.0 ≡ (true, false)
      → (decide_source mac user b r).0.0 ≡ false
  decide_source_conflict user b ((true, false), u) e = refl
  decide_source_conflict user b ((true, true), u) e = cc
  decide_source_conflict user b ((false, m), u) e = cc

  -- While the table of bindings has room, an accepted password binds its source: the next attempt of
  -- that source for the account is refused if its password has another fingerprint.
  pub accepted_binds :
      (a b : Attempt) (s : Store)
      → (trap_credential_decision mac a s).0.0 ≡ true
      → length s.bindings < max_bindings
      → b.remote ≡ a.remote
      → b.user ≡ a.user
      → fingerprint mac s (normal b.user) b.password ≢ fingerprint mac s (normal a.user) a.password
      → (trap_credential_decision mac b (trap_credential_decision mac a s).1).0.0 ≡ false
  accepted_binds a b s h room remote user other =
      let t = (trap_credential_decision mac a s).1 in
      let name = normal b.user in
      let (has, key, signed, (agrees, bound)) = accepted-Leaves mac a s h in
      let fp = fingerprint mac s (normal a.user) a.password in
      let held : IsBound (binding_key b.remote name) fp t = rw (user, remote) (bound room) in
      let other2 : fingerprint mac t name b.password ≢ fp =
        rw (fingerprint_of_key mac s t name b.password key) other in
      elim (Option-cases (screen name b)) [
        | inr (verdict, barred) ↦ rw (decision_barred b t verdict barred) refl
        | inl clear ↦ rw (decision_of_screen mac b t clear) (
            decide_source_conflict name b _
              (source_of_other mac b.remote name b.password b.source_at t fp held other2))
      ]
