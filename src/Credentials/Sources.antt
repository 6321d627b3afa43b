-- ===== src/Credentials/Sources.antt =====
-- A source's binding: what binding it to a password and asking for it leave in the table.
use zent_loop.Common.{
  ℕ, ◌-◌, ◌≤◌, ◌<◌, Bool, true, false, [], ◌∷◌, ◌++◌, Bytes, bytes_eq, nat_eq, codes, none, some,
  ◌==◌, lookup, insert, length, ◌≡◌, ◌≢◌, refl, arith, ◌⊎◌, inl, inr, Bool-cases, Option-cases,
  if_rule, bytes_beq_iff, lookup-insert_self, lookup-keep_entries, length-keep_entries-le,
  length-insert-le, keep_entries, Map, ◌∙◌, append-cons-ne-nil,
}
use zent_loop.Credentials.{
  Binding, Store, is_current, normal, fingerprint, max_bindings, cap_bindings,
  source_credential_status, check_binding, bind_source_credential, bound_store, binding_key,
  conflicts, drop_rows,
}
use zent_loop.Credentials.Bindings.{lookup-cap_bindings}
use zent_loop.Credentials.Bounds.{length-insert_of_some}

-- The key has a binding to the fingerprint; it has no other binding.
abbrev pub IsBound : Bytes → Bytes → Store → Type 0
IsBound key fp s = (b : Binding) × (lookup key s.bindings ≡ some b) × (b.fingerprint ≡ fp)

abbrev pub Agrees : Bytes → Bytes → Store → Type 0
Agrees key fp s = (lookup key s.bindings ≡ none) ⊎ IsBound key fp s

cap_bindings_room : (m : Map Bytes Binding) → length m ≤ max_bindings → cap_bindings m ≡ m
unfolding cap_bindings drop_rows
cap_bindings_room m h =
    let none_over : length m - max_bindings ≡ 0 = omega arith in rw none_over refl

abbrev new_binding : Bytes → ℕ → Binding
new_binding fp now = record { fingerprint = fp; last_seen = now }

kept_new :
    (key fp : Bytes) (now : ℕ) (s : Store)
    → lookup key (keep_entries (is_current now) (insert key (new_binding fp now) s.bindings))
      ≡ some (new_binding fp now)
kept_new key fp now s =
    lookup-keep_entries (is_current now) key (new_binding fp now) _
      (lookup-insert_self key (new_binding fp now) s.bindings) (ground arith)

-- What binding does for a key that has no other binding.
abbrev pub Binds : Bytes → Bytes → Store → Store → Type 0
Binds key fp s t = Agrees key fp t × (length s.bindings < max_bindings → IsBound key fp t)

bound_store-Binds :
    (key fp : Bytes) (now : ℕ) (s : Store) → Binds key fp s (bound_store key fp now s)
bound_store-Binds key fp now s =
    let kept = keep_entries (is_current now) (insert key (new_binding fp now) s.bindings) in
    (
      elim (lookup-cap_bindings key kept) [
        | inl gone ↦ inl gone
        | inr same ↦ inr (new_binding fp now, same ∙ kept_new key fp now s, refl)
      ],
      λ room. (
        new_binding fp now,
        rw
            (cap_bindings_room kept (
              omega (
                arith,
                length-keep_entries-le (is_current now)
                    (insert key (new_binding fp now) s.bindings),
                length-insert-le key (new_binding fp now) s.bindings,
              )))
            (kept_new key fp now s),
        refl,
      ),
    )

Agrees-conflicts :
    (key fp : Bytes) (s : Store) → Agrees key fp s → conflicts fp (lookup key s.bindings) ≡ false
Agrees-conflicts key fp s (inl gone) = rw gone refl
Agrees-conflicts key fp s (inr (b, found, same)) =
    rw (found, same) (ground (arith, bytes_beq_iff fp fp))

not_only_bar : (v w : Bytes) → w ≢ [] → v ++ 124 ∷ w ≢ 124 ∷ []
not_only_bar [] w ne h = let empty : w ≡ [] = cc in ne empty
not_only_bar (c ∷ v) w ne h = let rest : v ++ 124 ∷ w ≡ [] = cc in append-cons-ne-nil v 124 w rest

binding_key_ne : (source user : Bytes) → normal user ≢ [] → binding_key source user ≢ codes "|"
unfolding binding_key
binding_key_ne source user = not_only_bar (normal source) (normal user)

module _ (mac : Bytes → Bytes → Bytes) (source user password : Bytes) where
  pub bind-Binds :
      (now : ℕ) (persisted : Bool) (s : Store)
      → normal user ≢ []
      → fingerprint mac s user password ≢ []
      → Agrees (binding_key source user) (fingerprint mac s user password) s
      → (let t = (bind_source_credential mac source user password now persisted s).1 in
          Binds (binding_key source user) (fingerprint mac s user password) s t
          × (t.pools ≡ s.pools)
          × (t.key ≡ s.key))
  unfolding bind_source_credential
  bind-Binds now persisted s named signed agrees =
      let key = binding_key source user in
      let fp = fingerprint mac s user password in
      let bar : (key == codes "|") ≡ false =
        ground (arith, bytes_beq_iff key (codes "|"), binding_key_ne source user named) in
      let some_print : (fp == []) ≡ false = ground (arith, bytes_beq_iff fp []) in
      rw (bar, some_print, Agrees-conflicts key fp s agrees)
        (bound_store-Binds key fp now s, refl, refl)

  -- The three answers of `SSHSourceCredentialStatus`.
  abbrev pub SourceAnswer : Store → (Bool × Bool) × Store → Type 0
  SourceAnswer s r =
      ((r ≡ ((false, false), s)) × (lookup (binding_key source user) s.bindings ≡ none))
      ⊎ ((r.0 ≡ (true, false))
          ⊎ ((r.0 ≡ (true, true))
              × IsBound (binding_key source user) (fingerprint mac s user password) r.1
              × (r.1.pools ≡ s.pools)
              × (r.1.key ≡ s.key)
              × (length r.1.bindings ≡ length s.bindings)))

  check_binding-SourceAnswer :
      (now : ℕ) (b : Binding) (s : Store)
      → lookup (binding_key source user) s.bindings ≡ some b
      → SourceAnswer s (
          check_binding mac
            (binding_key source user)
            (fingerprint mac s user password)
            now
            (some b)
            s)
  check_binding-SourceAnswer now b s found =
      let key = binding_key source user in
      let fp = fingerprint mac s user password in
      if_rule (SourceAnswer s) (fp == []) _ _ (λ _. inr (inl refl))
        (λ signed. elim (Bool-cases (b.fingerprint == fp)) [
          | inr differ ↦ rw differ (inr (inl refl))
          | inl same ↦
              let seen : Binding = record b { last_seen = now } in
              rw same (
                inr (
                  inr (
                    refl,
                    (
                      seen,
                      lookup-insert_self key seen s.bindings,
                      (bytes_beq_iff b.fingerprint fp).0 same,
                    ),
                    refl,
                    refl,
                    length-insert_of_some key seen b s.bindings found,
                  )))
        ])

  source_found :
      (now : ℕ) (b : Binding) (s : Store)
      → lookup (binding_key source user) s.bindings ≡ some b
      → source_credential_status mac source user password now s
        ≡ check_binding mac
            (binding_key source user)
            (fingerprint mac s user password)
            now
            (some b)
            s
  unfolding source_credential_status
  source_found now b s found = rw found refl

  pub source_absent :
      (now : ℕ) (s : Store)
      → lookup (binding_key source user) s.bindings ≡ none
      → source_credential_status mac source user password now s ≡ ((false, false), s)
  unfolding source_credential_status
  source_absent now s gone = rw gone refl

  pub source_credential_status-SourceAnswer :
      (now : ℕ) (s : Store)
      → SourceAnswer s (source_credential_status mac source user password now s)
  source_credential_status-SourceAnswer now s =
      elim (Option-cases (lookup (binding_key source user) s.bindings)) [
        | inl gone ↦ inl (source_absent now s gone, gone)
        | inr (b, found) ↦
            rw (source_found now b s found) (check_binding-SourceAnswer now b s found)
      ]

  -- A source that is bound to the password's fingerprint, or to none.
  pub source_of_IsBound :
      (now : ℕ) (s : Store)
      → fingerprint mac s user password ≢ []
      → IsBound (binding_key source user) (fingerprint mac s user password) s
      → ((source_credential_status mac source user password now s).0 ≡ (true, true))
        × ((source_credential_status mac source user password now s).1.pools ≡ s.pools)
        × ((source_credential_status mac source user password now s).1.key ≡ s.key)
  source_of_IsBound now s signed (b, found, same) =
      let fp = fingerprint mac s user password in
      let print : (fp == []) ≡ false = ground (arith, bytes_beq_iff fp []) in
      let match : (b.fingerprint == fp) ≡ true = (bytes_beq_iff b.fingerprint fp).1 same in
      rw (source_found now b s found, print, match) (refl, refl, refl)

  -- A source that is bound to another fingerprint.
  pub source_of_other :
      (now : ℕ) (s : Store) (fp : Bytes)
      → IsBound (binding_key source user) fp s
      → fingerprint mac s user password ≢ fp
      → (source_credential_status mac source user password now s).0 ≡ (true, false)
  source_of_other now s fp (b, found, same) other =
      let got = fingerprint mac s user password in
      let differ : (b.fingerprint == got) ≡ false =
        ground (arith, bytes_beq_iff b.fingerprint got) in
      rw (source_found now b s found, differ) (ground arith)
