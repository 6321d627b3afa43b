-- ===== src/Sftp/Loop.antt =====
-- The loop over the packets: panics, replies, the limits of the file system, and its end.
use zent_loop.Common.{
  ℕ, zero, suc, ◌≤◌, ◌<◌, ◌^◌, Bool, true, false, [], ◌∷◌, ◌++◌, Bytes, nat_eq, Option, none, some,
  ◌==◌, ◌>>=◌, or_else, length, ◌≡◌, ◌≢◌, refl, ap, arith, inl, inr, Bool-cases, Option-cases,
}
use zent_loop.Files.Bounds.{IsValid}
use zent_loop.Sftp.{Sftp, Env, Outcome, replied, closed, crashed}
use zent_loop.Sftp.Wire.{put_u32, get_u32, read_packet}
use zent_loop.Sftp.Framing.{get_u32-put_u32, get_u32-short, read_packet-short}
use zent_loop.Sftp.Session.{packet, End, out_of_fuel, after, next_packet, run_virtual_sftp}
use zent_loop.Sftp.Replies.{Carries, Good}
use zent_loop.Sftp.Requests.{far_request, request-Good}

-- The packet is a read or a write at an offset of 2 ^ 63 or more.
unfoldable pub far_packet : Bytes → Bool
far_packet [] = false
far_packet (type ∷ v) = or_else (get_u32 v >>= λ (id, body). some (far_request type body)) false

Good-crashed :
    (far : Bool) (id : ℕ) (s : Sftp) (o : Outcome) → Good far id s o → o ≡ crashed → far ≡ true
unfolding Good
Good-crashed far id s crashed good e = good
Good-crashed far id s closed good e = cc
Good-crashed far id s (replied reply t) good e = cc

Good-replied :
    (id : ℕ) (s : Sftp) (o : Outcome)
    → Good false id s o
    → (reply : Bytes) × (t : Sftp) × (o ≡ replied reply t) × Carries id reply
unfolding Good
Good-replied id s (replied reply t) good = (reply, t, refl, good.0)
Good-replied id s closed good = elim good [ ]
Good-replied id s crashed good = cc

Good-kept :
    (far : Bool) (id : ℕ) (s : Sftp) (o : Outcome) (reply : Bytes) (t : Sftp)
    → Good far id s o
    → o ≡ replied reply t
    → IsValid s.world
    → IsValid t.world
unfolding Good
Good-kept far id s o reply t good e v = (rw e at good).1 v

-- A packet of at most a mebibyte that makes the session panic is a read or a write at an offset of
-- 2 ^ 63 or more.
pub packet-far :
    (env : Env) (p : Bytes) (s : Sftp)
    → length p ≤ 2 ^ 20
    → packet env p s ≡ crashed
    → far_packet p ≡ true
unfolding packet far_packet
packet-far env [] s short e = cc
packet-far env (type ∷ v) s short e = elim (Bool-cases (type == 1)) [
  | inl init ↦ cc (rw init at e)
  | inr other ↦ elim (Option-cases (get_u32 v)) [
    | inl gone ↦ cc (rw (other, gone) at e)
    | inr ((id, body), found) ↦
        let fits : length body ≤ 2 ^ 20 = omega (arith, get_u32-short v (id, body) found) in
        rw found (
          Good-crashed (far_request type body) id s _ (request-Good id s env type body fits)
            (rw (other, found) at e))
  ]
]

-- A request that is not an `init` and whose offset, if it has one, is below 2 ^ 63 is replied to,
-- whatever its type and its arguments, and the reply carries the request's id.
pub packet-replied :
    (env : Env) (type id : ℕ) (body : Bytes) (s : Sftp)
    → type ≢ 1
    → id < 2 ^ 32
    → length body ≤ 2 ^ 20
    → far_request type body ≡ false
    → (reply : Bytes) × (t : Sftp) × (packet env (type ∷ put_u32 id ++ body) s ≡ replied reply t)
      × Carries id reply
unfolding packet
packet-replied env type id body s other small short near =
    let no_init : (type == 1) ≡ false = ground arith in
    rw (no_init, get_u32-put_u32 id body small)
      (Good-replied id s _ (rw near at (request-Good id s env type body short)))

abbrev pub state_after : Sftp → Outcome → Sftp
state_after s (replied reply t) = t
state_after s o = s

packet-IsValid :
    (env : Env) (p : Bytes) (s : Sftp) (reply : Bytes) (t : Sftp)
    → length p ≤ 2 ^ 20
    → packet env p s ≡ replied reply t
    → IsValid s.world
    → IsValid t.world
unfolding packet
packet-IsValid env [] s reply t short e v = cc
packet-IsValid env (type ∷ rest) s reply t short e v = elim (Bool-cases (type == 1)) [
  | inl init ↦ rw (← ap (state_after s) (rw init at e)) v
  | inr other ↦ elim (Option-cases (get_u32 rest)) [
    | inl gone ↦ cc (rw (other, gone) at e)
    | inr ((id, body), found) ↦
        let fits : length body ≤ 2 ^ 20 = omega (arith, get_u32-short rest (id, body) found) in
        Good-kept (far_request type body) id s _ reply t (request-Good id s env type body fits)
          (rw (other, found) at e) v
  ]
]

module _ (env : Env) where
  next_packet-IsValid :
      (next : Bytes → Sftp → End × Sftp × Bytes) (o : Option (Bytes × Bytes)) (s : Sftp)
      → ((v : Bytes) (t : Sftp) → IsValid t.world → IsValid (next v t).1.world)
      → ((x : Bytes × Bytes) → o ≡ some x → length x.0 ≤ 2 ^ 20)
      → IsValid s.world
      → IsValid (next_packet env next o s).1.world
  next_packet-IsValid next none s keep short v = v
  next_packet-IsValid next (some (p, rest)) s keep short v = go (packet env p s) refl
    where
      go : (o : Outcome) → packet env p s ≡ o → IsValid (after next rest s o).1.world
      go closed e = v
      go crashed e = v
      go (replied reply t) e =
          keep rest t (packet-IsValid env p s reply t (short (p, rest) refl) e v)

  -- Whatever bytes the client sends, files within the limits of the host stay within them: in their
  -- number, in the size of each and of all, and in the number of directories.
  pub run_virtual_sftp-IsValid :
      (fuel : ℕ) (stream : Bytes) (s : Sftp)
      → IsValid s.world
      → IsValid (run_virtual_sftp fuel env stream s).1.world
  unfolding run_virtual_sftp
  run_virtual_sftp-IsValid zero stream s v = v
  run_virtual_sftp-IsValid (suc fuel) stream s v =
      next_packet-IsValid (run_virtual_sftp fuel env) (read_packet stream) s
        (run_virtual_sftp-IsValid fuel) (λ x e. (read_packet-short stream x e).0) v

  next_packet-ends :
      (next : Bytes → Sftp → End × Sftp × Bytes) (o : Option (Bytes × Bytes)) (s : Sftp)
      → ((x : Bytes × Bytes) (t : Sftp) → o ≡ some x → (next x.1 t).0 ≢ out_of_fuel)
      → (next_packet env next o s).0 ≢ out_of_fuel
  next_packet-ends next none s ends = cc
  next_packet-ends next (some (p, rest)) s ends = go (packet env p s)
    where
      go : (o : Outcome) → (after next rest s o).0 ≢ out_of_fuel
      go closed = cc
      go crashed = cc
      go (replied reply t) = ends (p, rest) t refl

  -- The loop ends, for any stream: a step for every byte and one more are enough.
  pub run_virtual_sftp-ends :
      (fuel : ℕ) (stream : Bytes) (s : Sftp)
      → length stream < fuel
      → (run_virtual_sftp fuel env stream s).0 ≢ out_of_fuel
  unfolding run_virtual_sftp
  run_virtual_sftp-ends zero stream s enough = omega arith
  run_virtual_sftp-ends (suc fuel) stream s enough =
      next_packet-ends (run_virtual_sftp fuel env) (read_packet stream) s (λ x t e.
        run_virtual_sftp-ends fuel x.1 t (omega (arith, enough, (read_packet-short stream x e).1)))
