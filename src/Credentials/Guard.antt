-- ===== src/Credentials/Guard.antt =====
-- What an accepted attempt must have been.
use zent_loop.Common.{
  ◌≤◌, true, false, List, [], ◌∷◌, Bytes, bytes_eq, none, ◌==◌, length, ◌≡◌, arith, ◌⊎◌, inl, inr,
  All, bytes_beq_iff, Bool-cases,
}
use zent_loop.Credentials.{Store, normal}
use zent_loop.Credentials.Policy.{
  Attempt, trap_credential_decision, screen, sticky_user, other_active, virtual_ssh_account_exists,
}
use zent_loop.Credentials.Accepted.{screened}

none_other :
    (user : Bytes) (l : List Bytes) → other_active user l ≡ false → All (λ active. active ≡ user) l
unfolding other_active
none_other user [] h = tt
none_other user (x ∷ l) h = (ground (arith, bytes_beq_iff x user), none_other user l (ground arith))

-- The name, the password and the source's other logins allow the attempt.
abbrev pub Allowed : Bytes → Attempt → Type 0
Allowed user a =
    (virtual_ssh_account_exists user ≡ true)
    × (1 ≤ length a.password)
    × (length a.password ≤ 256)
    × ((sticky_user a.profile.recent_accepted_users ≡ [])
        ⊎ (user ≡ sticky_user a.profile.recent_accepted_users))
    × All (λ active. active ≡ user) a.profile.active_accepted_users

screen-Allowed : (user : Bytes) (a : Attempt) → screen user a ≡ none → Allowed user a
unfolding screen
screen-Allowed user a h =
    let sticky = sticky_user a.profile.recent_accepted_users in
    (
      ground arith,
      ground arith,
      ground arith,
      elim (Bool-cases (sticky == [])) [
        | inl free ↦ inl ((bytes_beq_iff sticky []).0 free)
        | inr held ↦ inr ((bytes_beq_iff user sticky).0 (ground arith))
      ],
      none_other user a.profile.active_accepted_users (ground arith),
    )

-- An accepted attempt names an account of the host and has a password of one to 256 bytes. The account
-- is the one that the source was let into before, if there is one, and no session of the source is
-- open for another account.
pub trap_credential_decision-Allowed :
    (mac : Bytes → Bytes → Bytes) (a : Attempt) (s : Store)
    → (trap_credential_decision mac a s).0.0 ≡ true
    → Allowed (normal a.user) a
trap_credential_decision-Allowed mac a s h = screen-Allowed (normal a.user) a (screened mac a s h)
