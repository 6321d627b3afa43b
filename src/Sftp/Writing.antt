-- ===== src/Sftp/Writing.antt =====
-- A file that is sent in pieces by write requests, one after the other.
use zent_loop.Common.{
  ℕ, ◌+◌, ◌≤◌, ◌^◌, Bool, true, false, List, [], ◌∷◌, ◌++◌, Bytes, bytes_eq, bytes_beq_iff, Option,
  none, some, ltb, ◌==◌, if◌then◌else◌, length, All, lookup, insert, lookup-insert_self, ◌>>=◌, ◌≡◌,
  refl, arith, inl, inr, Bool-cases, length-append, append_assoc, append-nil,
}
use zent_loop.Sftp.{Sftp, Outcome, replied, crashed, closed, ok_reply, full_reply, add64, signed_lt}
use zent_loop.Sftp.Handles.{write_at, new_handle, max_upload_bytes}
use zent_loop.Sftp.Sending.{joined, sent_handle, write_sent}

-- The session after a request that is answered with OK.
abbrev pub accepted : ℕ → Outcome → Option Sftp
accepted id (replied reply s) = if reply == ok_reply id then some s else none
accepted id crashed = none
accepted id closed = none

-- The pieces are written behind each other to the handle of that name, and every write is answered with
-- OK: the session afterwards, or `none`.
unfoldable pub write_all : ℕ → Bytes → ℕ → List Bytes → Sftp → Option Sftp
unfolding lookup
write_all id name offset [] s = some s
write_all id name offset (piece ∷ pieces) s = do
  t ← accepted id (write_at id name offset piece (lookup name s.handles) s)
  write_all id name (offset + length piece) pieces t

accepted-ok : (id : ℕ) (s : Sftp) → accepted id (replied (ok_reply id) s) ≡ some s
accepted-ok id s =
    let same : (ok_reply id == ok_reply id) ≡ true =
      (bytes_beq_iff (ok_reply id) (ok_reply id)).1 refl in
    rw same refl

-- The session whose handle has a file of which `sent` was written.
abbrev pub sent_session : Bytes → Bytes → Bool → Bytes → Sftp → Sftp
sent_session name target read sent s = record s {
  handles = insert name (sent_handle target read sent) s.handles;
}

module _ (id : ℕ) (name target : Bytes) (read : Bool) where
  write_at-sent :
      (sent piece : Bytes) (s : Sftp)
      → length piece ≤ 2 ^ 20
      → length sent + length piece ≤ max_upload_bytes
      → write_at id name (length sent) piece (some (sent_handle target read sent)) s
        ≡ replied (ok_reply id) (sent_session name target read (sent ++ piece) s)
  unfolding write_at
  write_at-sent sent piece s short fits =
      let within : signed_lt max_upload_bytes (add64 (length sent) (length piece)) ≡ false =
        ground arith in
      rw (within, write_sent target read sent piece short fits) refl

  write_at_full :
      (sent piece : Bytes) (s : Sftp)
      → length piece ≤ 2 ^ 20
      → length sent ≤ max_upload_bytes
      → ltb max_upload_bytes (length sent + length piece) ≡ true
      → write_at id name (length sent) piece (some (sent_handle target read sent)) s
        ≡ replied (full_reply id) s
  unfolding write_at
  write_at_full sent piece s short near over =
      let past : signed_lt max_upload_bytes (add64 (length sent) (length piece)) ≡ true =
        ground arith in
      rw past refl

  -- The reply to one more piece, whether it fits or not.
  write_at_next :
      (sent piece : Bytes) (s : Sftp)
      → length piece ≤ 2 ^ 20
      → length sent ≤ max_upload_bytes
      → (t : Sftp) × (write_at id name (length sent) piece (some (sent_handle target read sent)) s
          ≡ replied
              (if ltb max_upload_bytes (length sent + length piece)
                then full_reply id
                else ok_reply id)
              t)
  write_at_next sent piece s short near =
      elim (Bool-cases (ltb max_upload_bytes (length sent + length piece))) [
        | inl over ↦ (s, rw over (write_at_full sent piece s short near over))
        | inr fits ↦ (
          sent_session name target read (sent ++ piece) s,
          rw fits (write_at-sent sent piece s short (ground arith)),
        )
      ]

  write_all-sent :
      (sent : Bytes) (pieces : List Bytes) (s : Sftp)
      → All (λ piece. length piece ≤ 2 ^ 20) pieces
      → length sent + length (joined pieces) ≤ max_upload_bytes
      → lookup name s.handles ≡ some (sent_handle target read sent)
      → (t : Sftp) × (write_all id name (length sent) pieces s ≡ some t)
        × (lookup name t.handles ≡ some (sent_handle target read (sent ++ joined pieces)))
        × (t.world ≡ s.world)
        × (t.uploads ≡ s.uploads)
  unfolding write_all joined
  write_all-sent sent [] s short fits held = (s, refl, rw (append-nil sent) held, refl, refl)
  write_all-sent sent (piece ∷ pieces) s short fits held =
      let joins = length-append piece (joined pieces) in
      let counts = length-append sent piece in
      let next = sent_session name target read (sent ++ piece) s in
      let later =
        write_all-sent (sent ++ piece) pieces next short.1 (omega (arith, fits, joins, counts))
          (lookup-insert_self name (sent_handle target read (sent ++ piece)) s.handles) in
      rw
        (
          held,
          write_at-sent sent piece s short.0 (omega (arith, fits, joins)),
          accepted-ok id next,
          ← append_assoc sent piece (joined pieces),
          ← counts,
        )
        later

  -- Pieces of at most a mebibyte, 64 MiB together, are written behind each other to a new file: every
  -- request is answered with OK, the handle keeps the first 16 KiB of the pieces joined, with the size and
  -- the digest of all of them, and the files of the machine and the uploads recorded are as before. One
  -- more piece is answered with OK as well, if it stays within the 64 MiB, and is refused otherwise.
  pub write_all-new_handle :
      (pieces : List Bytes) (more : Bytes) (s : Sftp)
      → All (λ piece. length piece ≤ 2 ^ 20) pieces
      → length more ≤ 2 ^ 20
      → length (joined pieces) ≤ max_upload_bytes
      → lookup name s.handles ≡ some (new_handle target true read [])
      → (t : Sftp) × (u : Sftp) × (write_all id name 0 pieces s ≡ some t)
        × (lookup name t.handles ≡ some (sent_handle target read (joined pieces)))
        × (t.world ≡ s.world)
        × (t.uploads ≡ s.uploads)
        × (write_at id name (length (joined pieces)) more (lookup name t.handles) t
            ≡ replied
                (if ltb max_upload_bytes (length (joined pieces) + length more)
                  then full_reply id
                  else ok_reply id)
                u)
  write_all-new_handle pieces more s short small fits held =
      let (t, done, kept, world, uploads) = write_all-sent [] pieces s short (omega arith) held in
      let (u, reply) = write_at_next (joined pieces) more t small fits in
      (t, u, done, kept, world, uploads, rw kept reply)
