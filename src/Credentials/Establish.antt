-- ===== src/Credentials/Establish.antt =====
-- What a password that gets a slot means for the pool of its account.
use zent_loop.Common.{
  ℕ, Bool, true, false, not, ◌&&◌, ◌||◌, List, [], ◌∷◌, ◌++◌, Bytes, bytes_eq, nat_eq, Option, none,
  some, ltb, ◌==◌, length, ◌≡◌, refl, arith, inl, inr, Bool-cases, Option-cases, lookup-insert,
  bytes_beq_iff, lookup-insert_self,
}
use zent_loop.Credentials.{
  Slot, Store, touch, by_age, pool, new_slot, with_pool, normal, fingerprint, pool_size,
  credential_status, establish_credential, use_slot, add_slot, rotate,
}
use zent_loop.Credentials.Pools.{
  has_slot, has_recent, any_idle, first_idle, has_slot-nil, touch-none, touch_of_has, touch-some,
  has_recent-by_age, first_idle-by_age, has_slot-append, has_slot-new, has_slot-rotated,
  has_slot_of_recent,
}

rotate-fst :
    (user fp : Bytes) (now : ℕ) (l : List Slot) (s : Store)
    → (rotate user fp now true l s).0 ≡ first_idle now l
rotate-fst user fp now [] s = refl
rotate-fst user fp now (x ∷ l) s = ground arith

rotate-bindings :
    (user fp : Bytes) (now : ℕ) (persisted : Bool) (l : List Slot) (s : Store)
    → (rotate user fp now persisted l s).1.bindings ≡ s.bindings
rotate-bindings user fp now persisted [] s = refl
rotate-bindings user fp now persisted (x ∷ l) s = ground arith

add_slot-fst :
    (user fp : Bytes) (now : ℕ) (s : Store)
    → (add_slot user fp now true s).0
      ≡ (ltb (length (pool user s)) pool_size || any_idle now (pool user s))
add_slot-fst user fp now s =
    ground
      (arith, rotate-fst user fp now (by_age (pool user s)) s, first_idle-by_age now (pool user s))

module _ (mac : Bytes → Bytes → Bytes) where
  -- A password that may get a slot: it is not empty, not too long, and the store can sign it.
  abbrev pub is_fit : Bytes → Bytes → Store → Bool
  is_fit name password s =
      not ((normal name == []) || (length password == 0) || ltb 256 (length password))
      && not (fingerprint mac s (normal name) password == [])

  use_slot-fst :
      (user fp : Bytes) (now : ℕ) (s : Store)
      → (use_slot user fp now true (touch fp now (pool user s)) s).0 ≡ (
          has_slot fp (pool user s)
          || ltb (length (pool user s)) pool_size
          || any_idle now (pool user s))
  use_slot-fst user fp now s = elim (Option-cases (touch fp now (pool user s))) [
    | inr (t, found) ↦ rw (found, (touch-some fp now (pool user s) t found).0) refl
    | inl gone ↦ rw (gone, touch-none fp now (pool user s) gone) (add_slot-fst user fp now s)
  ]

  -- A password gets a slot exactly if it is fit for one and its account has the password already, has
  -- room, or has a slot that was idle for forty-five minutes, provided that the state can be written.
  pub establish_credential_lem :
      (name password : Bytes) (now : ℕ) (s : Store)
      → (establish_credential mac name password now true s).0 ≡ (
          is_fit name password s
          && (has_slot (fingerprint mac s (normal name) password) (pool (normal name) s)
              || ltb (length (pool (normal name) s)) pool_size
              || any_idle now (pool (normal name) s)))
  unfolding establish_credential
  establish_credential_lem name password now s =
      ground (arith, use_slot-fst (normal name) (fingerprint mac s (normal name) password) now s)

  -- What a password that gets a slot leaves behind: its own slot, and those that were not idle.
  abbrev Keeps : Bytes → Bytes → ℕ → Store → Store → Type 0
  Keeps user fp now s t =
      (has_slot fp (pool user t) ≡ true)
      × ((other g : Bytes)
          → has_recent now g (pool other s) ≡ true
          → has_slot g (pool other t) ≡ true)
      × (t.key ≡ s.key)

  Keeps-with_pool :
      (user fp : Bytes) (now : ℕ) (s : Store) (l : List Slot)
      → has_slot fp l ≡ true
      → ((g : Bytes) → has_recent now g (pool user s) ≡ true → has_slot g l ≡ true)
      → Keeps user fp now s (with_pool user l s)
  Keeps-with_pool user fp now s l has kept = (
    rw lookup-insert_self has,
    λ other g recent. elim (Bool-cases (user == other)) [
      | inl same ↦ rw (lookup-insert, same) (kept g (rw ((bytes_beq_iff user other).0 same) recent))
      | inr differ ↦ rw (lookup-insert, differ) (has_slot_of_recent now g (pool other s) recent)
    ],
    refl,
  )

  rotate-Keeps :
      (user fp : Bytes) (now : ℕ) (persisted : Bool) (l : List Slot) (s : Store)
      → ((g : Bytes) → has_recent now g l ≡ has_recent now g (pool user s))
      → first_idle now l ≡ true
      → Keeps user fp now s (rotate user fp now persisted l s).1
  rotate-Keeps user fp now persisted [] s same idle = cc
  rotate-Keeps user fp now persisted (x ∷ l) s same idle = rw idle (
      Keeps-with_pool user fp now s (new_slot fp now ∷ l) (has_slot-new fp now l)
        (λ g recent. has_slot-rotated now g x l fp idle (rw (same g) recent)))

  add_slot-Keeps :
      (user fp : Bytes) (now : ℕ) (persisted : Bool) (s : Store)
      → (ltb (length (pool user s)) pool_size || any_idle now (pool user s)) ≡ true
      → Keeps user fp now s (add_slot user fp now persisted s).1
  add_slot-Keeps user fp now persisted s h =
      elim (Bool-cases (ltb (length (pool user s)) pool_size)) [
        | inl room ↦ rw room (
            Keeps-with_pool user fp now s (pool user s ++ new_slot fp now ∷ [])
              (rw has_slot-append (ground (arith, has_slot-new fp now [])))
              (λ g recent.
                rw has_slot-append (ground (arith, has_slot_of_recent now g (pool user s) recent))))
        | inr full ↦ rw full (
            rotate-Keeps user fp now persisted (by_age (pool user s)) s
              (λ g. has_recent-by_age now g (pool user s)) (rw first_idle-by_age (ground arith)))
      ]

  use_slot-Keeps :
      (user fp : Bytes) (now : ℕ) (persisted : Bool) (s : Store)
      → (has_slot fp (pool user s)
          || ltb (length (pool user s)) pool_size
          || any_idle now (pool user s))
        ≡ true
      → Keeps user fp now s (use_slot user fp now persisted (touch fp now (pool user s)) s).1
  use_slot-Keeps user fp now persisted s h = elim (Option-cases (touch fp now (pool user s))) [
    | inr (t, found) ↦
        let (has, same, long) = touch-some fp now (pool user s) t found in
        rw found (
          Keeps-with_pool user fp now s t (rw (same fp) has)
            (λ g recent. rw (same g) (has_slot_of_recent now g (pool user s) recent)))
    | inl gone ↦
        let absent = touch-none fp now (pool user s) gone in
        rw gone (add_slot-Keeps user fp now persisted s (rw absent at h))
  ]

  establish_credential_of_fit :
      (name password : Bytes) (now : ℕ) (persisted : Bool) (s : Store)
      → is_fit name password s ≡ true
      → establish_credential mac name password now persisted s ≡ (
          let fp = fingerprint mac s (normal name) password in
          use_slot (normal name) fp now persisted (touch fp now (pool (normal name) s)) s)
  unfolding establish_credential
  establish_credential_of_fit name password now persisted s fit = ground arith

  rotate_unpersisted :
      (user fp : Bytes) (now : ℕ) (l : List Slot) (s : Store)
      → (rotate user fp now false l s).0 ≡ false
  rotate_unpersisted user fp now [] s = refl
  rotate_unpersisted user fp now (x ∷ l) s = ground arith

  use_slot_unpersisted :
      (user fp : Bytes) (now : ℕ) (o : Option (List Slot)) (s : Store)
      → (use_slot user fp now false o s).0 ≡ false
  use_slot_unpersisted user fp now none s =
      ground (arith, rotate_unpersisted user fp now (by_age (pool user s)) s)
  use_slot_unpersisted user fp now (some t) s = refl

  establish_credential_unpersisted :
      (name password : Bytes) (now : ℕ) (s : Store)
      → (establish_credential mac name password now false s).0 ≡ false
  unfolding establish_credential
  establish_credential_unpersisted name password now s =
      let fp = fingerprint mac s (normal name) password in
      ground
        (arith, use_slot_unpersisted (normal name) fp now (touch fp now (pool (normal name) s)) s)

  use_slot-bindings :
      (user fp : Bytes) (now : ℕ) (persisted : Bool) (o : Option (List Slot)) (s : Store)
      → (use_slot user fp now persisted o s).1.bindings ≡ s.bindings
  use_slot-bindings user fp now persisted none s =
      ground (arith, rotate-bindings user fp now persisted (by_age (pool user s)) s)
  use_slot-bindings user fp now persisted (some t) s = refl

  pub establish_credential-bindings :
      (name password : Bytes) (now : ℕ) (persisted : Bool) (s : Store)
      → (establish_credential mac name password now persisted s).1.bindings ≡ s.bindings
  unfolding establish_credential
  establish_credential-bindings name password now persisted s =
      let fp = fingerprint mac s (normal name) password in
      let slots = touch fp now (pool (normal name) s) in
      ground (arith, use_slot-bindings (normal name) fp now persisted slots s)

  pub establish_credential-Keeps :
      (name password : Bytes) (now : ℕ) (persisted : Bool) (s : Store)
      → (establish_credential mac name password now persisted s).0 ≡ true
      → (is_fit name password s ≡ true)
        × Keeps
            (normal name)
            (fingerprint mac s (normal name) password)
            now
            s
            (establish_credential mac name password now persisted s).1
  establish_credential-Keeps name password now false s h =
      cc (h, establish_credential_unpersisted name password now s)
  establish_credential-Keeps name password now true s h =
      let granted = rw establish_credential_lem at h in
      let fit : is_fit name password s ≡ true = ground arith in
      (
        fit,
        rw (establish_credential_of_fit name password now true s fit) (
            use_slot-Keeps (normal name) (fingerprint mac s (normal name) password) now true s
              (ground arith)),
      )

  pub status_of_has :
      (name password : Bytes) (now : ℕ) (s : Store)
      → is_fit name password s ≡ true
      → has_slot (fingerprint mac s (normal name) password) (pool (normal name) s) ≡ true
      → (credential_status mac name password now s).0 ≡ (true, true)
  unfolding credential_status
  status_of_has name password now s fit has =
      let got = fingerprint mac s (normal name) password in
      let (t, found) = touch_of_has got now (pool (normal name) s) has in
      ground (arith, found, has_slot-nil (pool (normal name) s) got)

  pub fingerprint_of_key :
      (s t : Store) (user password : Bytes)
      → t.key ≡ s.key
      → fingerprint mac t user password ≡ fingerprint mac s user password
  unfolding fingerprint
  fingerprint_of_key s t user password same = rw same

  -- A password that gets a slot is known from then on: the account is established and the password
  -- matches, whenever it is tried.
  pub status-establish_credential :
      (name password : Bytes) (now later : ℕ) (persisted : Bool) (s : Store)
      → (establish_credential mac name password now persisted s).0 ≡ true
      → (credential_status mac name password later
          (establish_credential mac name password now persisted s).1).0
        ≡ (true, true)
  status-establish_credential name password now later persisted s h =
      let (fit, (has, kept, same)) = establish_credential-Keeps name password now persisted s h in
      let t = (establish_credential mac name password now persisted s).1 in
      let print = fingerprint_of_key s t (normal name) password same in
      status_of_has name password later t (rw print fit) (rw print has)

  -- For a password that gets a slot no slot, of whatever account, is given up that was seen within the
  -- last forty-five minutes.
  pub establish_credential_kept :
      (name password : Bytes) (now : ℕ) (persisted : Bool) (s : Store) (other g : Bytes)
      → (establish_credential mac name password now persisted s).0 ≡ true
      → has_recent now g (pool other s) ≡ true
      → has_slot g (pool other (establish_credential mac name password now persisted s).1) ≡ true
  establish_credential_kept name password now persisted s other g h recent =
      let (fit, (has, kept, same)) = establish_credential-Keeps name password now persisted s h in
      kept other g recent
