-- ===== src/Sftp/Sending.antt =====
-- A file that is sent in pieces, one after the other, and closed.
use zent_loop.Common.{
  ℕ, zero, suc, ◌+◌, ◌-◌, ◌≤◌, ◌<◌, ◌^◌, Bool, true, false, List, [], ◌∷◌, ◌++◌, Bytes, nat_eq,
  Option, some, ltb, ◌==◌, if◌then◌else◌, length, take, drop, All, ◌>>=◌, ◌≡◌, refl, sym, ap, arith,
  inl, inr, Bool-cases, length-append, length-take, append_assoc, append-nil, take_of_length-le,
}
use zent_loop.Files.{World, set_virtual_file, max_virtual_file_bytes}
use zent_loop.Sftp.{Handle, Upload, Sftp, Env, replied, ok_reply, add64, signed_lt}
use zent_loop.Sftp.Handles.{
  write_handle, close_at, grow, zeros, overwrite, new_handle, raise_total, hash_next,
  max_upload_bytes, upload_of,
}
use zent_loop.Sftp.Framing.{take-append}
use zent_loop.Sftp.Panics.{patched, patch_near, min_of, length-zeros}

-- The pieces are written behind each other.
unfoldable pub send : ℕ → List Bytes → Handle → Option Handle
send offset [] h = some h
send offset (piece ∷ pieces) h = do
  g ← write_handle offset piece h
  send (offset + length piece) pieces g

unfoldable pub joined : List Bytes → Bytes
joined [] = []
joined (v ∷ vs) = v ++ joined vs

-- The handle of a new file after the bytes `sent`: the first 16 KiB are kept, all are digested.
abbrev pub sent_handle : Bytes → Bool → Bytes → Handle
sent_handle target read sent =
    record (new_handle target true read (take max_virtual_file_bytes sent)) {
      total = length sent;
      hashed = some sent;
      next_offset = length sent;
    }

sub_zero : (n : ℕ) → n - 0 ≡ n
sub_zero n = omega arith

take-append-le : (n : ℕ) (v w : Bytes) → length v ≤ n → take n (v ++ w) ≡ v ++ take (n - length v) w
take-append-le n [] w h = rw (sub_zero n) refl
take-append-le zero (c ∷ v) w h = ground arith
take-append-le (suc n) (c ∷ v) w h =
    let less : suc n - suc (length v) ≡ n - length v = omega arith in
    rw less (ap (λ t. c ∷ t) (take-append-le n v w (omega arith)))

drop_of_length-le : (n : ℕ) (v : Bytes) → length v ≤ n → drop n v ≡ []
drop_of_length-le zero [] h = refl
drop_of_length-le (suc n) [] h = refl
drop_of_length-le zero (c ∷ v) h = ground arith
drop_of_length-le (suc n) (c ∷ v) h = drop_of_length-le n v (omega arith)

take-min_of : (k : ℕ) (v : Bytes) → take (min_of (length v) k) v ≡ take k v
take-min_of k v = elim (Bool-cases (ltb k (length v))) [
  | inl longer ↦ rw longer refl
  | inr within ↦
      rw (within, take_of_length-le k v (ground arith))
        (take_of_length-le (length v) v (omega arith))
]

take-far : (n : ℕ) (v w : Bytes) → n ≤ length v → take n (v ++ w) ≡ take n v
take-far zero v w h = refl
take-far (suc n) [] w h = absurd (omega arith)
take-far (suc n) (c ∷ v) w h = ap (λ t. c ∷ t) (take-far n v w (omega arith))

-- Writing behind the end appends.
append_grown : (v w : Bytes) (n : ℕ) → length w ≡ n → overwrite (v ++ zeros n) (length v) w ≡ v ++ w
append_grown v w n h =
    let none_left : drop (length v + length w) (v ++ zeros n) ≡ [] =
      drop_of_length-le (length v + length w) (v ++ zeros n)
        (omega (arith, length-append v (zeros n), length-zeros n)) in
    rw (take-append v (zeros n), none_left) (append-nil (v ++ w))

grow-more :
    (v : Bytes) (n : ℕ)
    → length v + n ≤ max_virtual_file_bytes
    → grow v (length v + n) ≡ v ++ zeros n
unfolding grow
grow-more v n h = elim (Bool-cases (signed_lt (length v) (length v + n))) [
  | inl longer ↦ let added : length v + n - length v ≡ n = omega arith in rw (longer, added) refl
  | inr same ↦ let nothing : n ≡ 0 = ground arith in rw (same, nothing) (no_zeros v)
]
  where
    no_zeros : (v : Bytes) → v ≡ v ++ zeros 0
    no_zeros v = sym (append-nil v)

kept :
    (sent piece : Bytes)
    → length sent < max_virtual_file_bytes
    → patched sent (length sent) piece ≡ take max_virtual_file_bytes (sent ++ piece)
unfolding zeros
kept sent piece near =
    let m = max_virtual_file_bytes in
    let n = min_of (length piece) (m - length sent) in
    let need : min_of (length sent + length piece) m ≡ length sent + n = ground arith in
    let few : length (take n piece) ≡ n = ground (arith, length-take n piece) in
    rw
      (
        take-append-le m sent piece (omega arith),
        ← take-min_of (m - length sent) piece,
        need,
        grow-more sent n (ground arith),
      )
      (elim (Bool-cases (n == 0)) [
        | inl nothing ↦ let zero_n : n ≡ 0 = ground arith in rw (nothing, zero_n) refl
        | inr something ↦ rw something (append_grown sent (take n piece) n few)
      ])

same_size : (a b : ℕ) → a ≤ b → b ≤ max_upload_bytes → signed_lt a b ≡ false → a ≡ b
same_size a b below small h = ground arith

-- The fields of the handle are compared one by one.
counted :
    (target : Bytes) (read : Bool) (sent piece content : Bytes)
    → length sent + length piece ≤ max_upload_bytes
    → content ≡ take max_virtual_file_bytes (sent ++ piece)
    → raise_total (add64 (length sent) (length piece)) (
        hash_next (record (sent_handle target read sent) { content = content }) (length sent) piece)
      ≡ sent_handle target read (sent ++ piece)
counted target read sent piece content fits e =
    let joins = length-append sent piece in
    let sum : add64 (length sent) (length piece) ≡ length (sent ++ piece) = omega (arith, joins) in
    let here : (length sent == length sent) ≡ true = ground arith in
    rw (sum, here, e)
      (elim (Bool-cases (signed_lt (length sent) (length (sent ++ piece)))) [
        | inl more ↦ rw more refl
        | inr same ↦
            let no_more : length sent ≡ length (sent ++ piece) =
              same_size (length sent) (length (sent ++ piece)) (omega (arith, joins))
                (omega (arith, joins)) same in
            rw (same, no_more) refl
      ])

pub write_sent :
    (target : Bytes) (read : Bool) (sent piece : Bytes)
    → length piece ≤ 2 ^ 20
    → length sent + length piece ≤ max_upload_bytes
    → write_handle (length sent) piece (sent_handle target read sent)
      ≡ some (sent_handle target read (sent ++ piece))
unfolding write_handle
write_sent target read sent piece short fits =
    elim (Bool-cases (signed_lt (length sent) max_virtual_file_bytes)) [
      | inl low ↦
          let near : length sent < max_virtual_file_bytes = ground arith in
          let all = take_of_length-le max_virtual_file_bytes sent (omega arith) in
          rw (low, all, patch_near sent (length sent) piece near short)
            (ap some (counted target read sent piece _ fits (kept sent piece near)))
      | inr high ↦
          let far : max_virtual_file_bytes ≤ length sent = ground arith in
          rw high (
            ap some (
              counted target read sent piece _ fits
                (sym (take-far max_virtual_file_bytes sent piece far))))
    ]

module _ (target : Bytes) (read : Bool) where
  send-sent :
      (sent : Bytes) (pieces : List Bytes)
      → All (λ piece. length piece ≤ 2 ^ 20) pieces
      → length sent + length (joined pieces) ≤ max_upload_bytes
      → send (length sent) pieces (sent_handle target read sent)
        ≡ some (sent_handle target read (sent ++ joined pieces))
  unfolding send joined
  send-sent sent [] short fits = rw (append-nil sent) refl
  send-sent sent (piece ∷ pieces) short fits =
      let joins = length-append piece (joined pieces) in
      let counts = length-append sent piece in
      rw
        (
          write_sent target read sent piece short.0 (omega (arith, joins)),
          ← append_assoc sent piece (joined pieces),
          ← counts,
        )
        (send-sent (sent ++ piece) pieces short.1 (omega (arith, joins, counts)))

  -- Pieces of at most a mebibyte, 64 MiB together, that are written behind each other to a new file:
  -- every write succeeds, the file keeps the first 16 KiB of them joined, and its size and its digest
  -- are of all of them.
  pub send-new_handle :
      (pieces : List Bytes)
      → All (λ piece. length piece ≤ 2 ^ 20) pieces
      → length (joined pieces) ≤ max_upload_bytes
      → send 0 pieces (new_handle target true read [])
        ≡ some (sent_handle target read (joined pieces))
  send-new_handle pieces short fits = send-sent [] pieces short (omega arith)

-- A file whose pieces were sent in this way is closed: if it can be stored, what is recorded of it is
-- the size and the digest of the whole, although the kept part is shorter.
pub close_at-send :
    (env : Env) (id : ℕ) (name target : Bytes) (read : Bool) (pieces : List Bytes) (s : Sftp)
    (w : World)
    → All (λ piece. length piece ≤ 2 ^ 20) pieces
    → length (joined pieces) ≤ max_upload_bytes
    → set_virtual_file target (take max_virtual_file_bytes (joined pieces)) env.now s.world
      ≡ (true, w)
    → (t : Sftp) × (up : Upload) × (close_at env id name
          (send 0 pieces (new_handle target true read []))
          s
        ≡ replied (ok_reply id) t)
      × (t.uploads ≡ up ∷ s.uploads)
      × (up.path ≡ target)
      × (up.total ≡ length (joined pieces))
      × (up.sum ≡ env.sum256 (joined pieces))
unfolding close_at upload_of
close_at-send env id name target read pieces s w short fits stored =
    rw (send-new_handle target read pieces short fits, stored)
      (_, _, refl, refl, refl, refl, digest)
  where
    digest :
        (if length (joined pieces) == length (joined pieces)
          then env.sum256 (joined pieces)
          else env.sum256 (take max_virtual_file_bytes (joined pieces)))
        ≡ env.sum256 (joined pieces)
    digest =
        let same : (length (joined pieces) == length (joined pieces)) ≡ true = ground arith in
        rw same refl
