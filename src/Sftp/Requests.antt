-- ===== src/Sftp/Requests.antt =====
-- All requests: their replies, and when a packet makes the session panic.
use zent_loop.Common.{
  ℕ, ◌≤◌, ◌^◌, Bool, true, false, not, ◌&&◌, ◌||◌, [], Bytes, bytes_eq, nat_eq, Option, none, some,
  ◌==◌, length, lookup, ◌>>=◌, or_else, ◌≡◌, refl, arith, if_rule,
}
use zent_loop.Files.{World, resolve, virtual_read_file, set_virtual_file, is_missing}
use zent_loop.Files.Bounds.{IsValid}
use zent_loop.Sftp.{Handle, Sftp, Env, Outcome, crashed, is_negative, signed_lt, add64}
use zent_loop.Sftp.Wire.{get_u32, get_u64, get_string}
use zent_loop.Sftp.Handles.{
  or_failure, has_bits, open_file, open_at, open_request, write_at, write_request, write_outcome,
  write_handle, read_at, read_request, close_at, close_request, store_handle, max_upload_bytes,
}
use zent_loop.Sftp.Tree.{
  on_path, realpath_at, stat_at, remove_at, mkdir_at, rmdir_at, rename_request, setstat_request,
  opendir_at, readdir_request, rename_at,
}
use zent_loop.Sftp.Framing.{get_string-short, get_u64-short}
use zent_loop.Sftp.Session.{request}
use zent_loop.Sftp.Replies.{
  Good, Good-status, Good-same, Good-reply, Good-realpath, Good-stat, Good-remove, Good-mkdir,
  Good-rmdir, Good-rename_found, Good-setstat, Good-opendir, Good-readdir, set_file-IsValid,
}
use zent_loop.Sftp.Panics.{write_handle_far}

module _ (far : Bool) (id : ℕ) (s : Sftp) where
  Good-panic : far ≡ true → Good far id s crashed
  unfolding Good
  Good-panic h = h

  Good-open_file :
      (target : Bytes) (write read : Bool) (found : Option Bytes) (t : Sftp)
      → (IsValid s.world → IsValid t.world)
      → Good far id s (open_file id target write read found t)
  Good-open_file target write read found t keep =
      if_rule (Good far id s) (is_missing found && not write) _ _
        (λ _. Good-status far id s 2 _ _ keep) (λ _. Good-reply far id s _ _ (102, _, refl) keep)

  Good-open_at : (env : Env) (p : Bytes) (flags : ℕ) → Good far id s (open_at env id p flags s)
  unfolding open_at
  Good-open_at env p flags =
      let target = resolve p s.world in
      let write = has_bits flags 30 in
      let read = has_bits flags 1 in
      if_rule (Good far id s) (write && has_bits flags 16) _ _
        (λ _.
          Good-open_file target write read (some []) _
            (set_file-IsValid far id s target [] env.now s.world))
        (λ _.
          Good-open_file target write read (virtual_read_file env.dynamic target s.world) s
            (λ v. v))

  Good-close_at :
      (env : Env) (name : Bytes) (o : Option Handle) → Good far id s (close_at env id name o s)
  unfolding close_at
  Good-close_at env name none = Good-same far id s 4 _
  Good-close_at env name (some h) =
      if_rule (Good far id s) h.write _ _
        (λ _.
          Good-store name (set_virtual_file h.path h.content env.now s.world)
            (set_file-IsValid far id s h.path h.content env.now s.world))
        (λ _. Good-status far id s 0 _ _ (λ v. v))
    where
      Good-store :
          (name : Bytes) (p : Bool × World)
          → (IsValid s.world → IsValid p.1)
          → Good far id s (store_handle env id name h p s)
      Good-store name (true, w) keep = Good-status far id s 0 _ _ keep
      Good-store name (false, w) keep = Good-status far id s 4 _ _ keep

  Good-read_at :
      (offset n : ℕ) (o : Option Handle)
      → (is_negative offset ≡ true → far ≡ true)
      → Good far id s (read_at id offset n o s)
  unfolding read_at
  Good-read_at offset n none panic = Good-same far id s 4 _
  Good-read_at offset n (some h) panic =
      if_rule (Good far id s) (not h.read) _ _ (λ _. Good-same far id s 4 _)
        (λ _.
          if_rule (Good far id s) (not (signed_lt offset (length h.content))) _ _
            (λ _. Good-same far id s 1 _)
            (λ _.
              if_rule (Good far id s) (is_negative offset) _ _
                (λ negative. Good-panic (panic negative))
                (λ _. Good-reply far id s _ s (103, _, refl) (λ v. v))))

  Good-write_outcome :
      (name : Bytes) (o : Option Handle)
      → (o ≡ none → far ≡ true)
      → Good far id s (write_outcome id name o s)
  Good-write_outcome name none panic = Good-panic (panic refl)
  Good-write_outcome name (some h) panic = Good-status far id s 0 _ _ (λ v. v)

  Good-write_at :
      (name : Bytes) (offset : ℕ) (text : Bytes) (o : Option Handle)
      → length text ≤ 2 ^ 20
      → (is_negative offset ≡ true → far ≡ true)
      → Good far id s (write_at id name offset text o s)
  unfolding write_at
  Good-write_at name offset text none short panic = Good-same far id s 4 _
  Good-write_at name offset text (some h) short panic =
      if_rule (Good far id s) (not h.write) _ _ (λ _. Good-same far id s 4 _)
        (λ _.
          if_rule (Good far id s) (signed_lt max_upload_bytes (add64 offset (length text))) _ _
            (λ _. Good-same far id s 4 _)
            (λ _.
              Good-write_outcome name (write_handle offset text h)
                (λ none_left. panic (write_handle_far offset text h short none_left))))

  Good-bind {ℓ} :
      {A : Type ℓ} (m : Option A) (k : A → Option Outcome)
      → ((a : A) → m ≡ some a → Good far id s (or_failure id s (k a)))
      → Good far id s (or_failure id s (m >>= k))
  Good-bind none k good = Good-same far id s 4 _
  Good-bind (some a) k good = good a refl

  Good-on_path :
      (f : ℕ → Bytes → Sftp → Outcome) (body : Bytes)
      → ((target : Bytes) → Good far id s (f id target s))
      → Good far id s (on_path f id body s)
  Good-on_path f body good = Good-bind (get_string body) _ (λ (p, r) e. good (resolve p s.world))

  Good-open_request : (env : Env) (body : Bytes) → Good far id s (open_request env id body s)
  unfolding open_request
  Good-open_request env body =
      Good-bind (get_string body) _
        (λ (p, r) e. Good-bind (get_u32 r) _ (λ (flags, r2) e2. Good-open_at env p flags))

  Good-close_request : (env : Env) (body : Bytes) → Good far id s (close_request env id body s)
  unfolding close_request
  Good-close_request env body =
      Good-bind (get_string body) _ (λ (name, r) e. Good-close_at env name (lookup name s.handles))

  Good-rename_request : (env : Env) (body : Bytes) → Good far id s (rename_request env id body s)
  unfolding rename_request rename_at
  Good-rename_request env body = Good-bind (get_string body) _ (λ (old, r) e.
      Good-bind (get_string r) _ (λ (new, r2) e2.
        Good-rename_found far id s env (resolve old s.world) (resolve new s.world)
          (virtual_read_file env.dynamic (resolve old s.world) s.world)))

  Good-setstat_request : (env : Env) (body : Bytes) → Good far id s (setstat_request env id body s)
  unfolding setstat_request
  Good-setstat_request env body = Good-bind (get_string body) _ (λ (p, r) e.
      Good-bind (get_u32 r) _
        (λ (flags, r2) e2. Good-setstat far id s env (resolve p s.world) flags r2))

  Good-readdir_request : (env : Env) (body : Bytes) → Good far id s (readdir_request env id body s)
  unfolding readdir_request
  Good-readdir_request env body =
      Good-bind (get_string body) _
        (λ (name, r) e. Good-readdir far id s env name (lookup name s.handles))

-- The offset of a read or a write is 2 ^ 63 or more.
abbrev pub far_offset : Bytes → Option Bool
far_offset body = do
  (name, r) ← get_string body
  (offset, r2) ← get_u64 r
  some (is_negative offset)

abbrev pub far_request : ℕ → Bytes → Bool
far_request type body = ((type == 5) || (type == 6)) && or_else (far_offset body) false

module _ (id : ℕ) (s : Sftp) where
  Good-read_request :
      (body : Bytes) → Good (or_else (far_offset body) false) id s (read_request id body s)
  unfolding read_request
  Good-read_request body =
      let far = or_else (far_offset body) false in
      Good-bind far id s (get_string body) _ (λ (name, r) e.
        Good-bind far id s (get_u64 r) _ (λ (offset, r2) e2.
          Good-bind far id s (get_u32 r2) _ (λ (n, r3) e3.
            Good-read_at far id s offset n (lookup name s.handles)
              (λ negative. rw (e, e2) negative))))

  Good-write_request :
      (body : Bytes)
      → length body ≤ 2 ^ 20
      → Good (or_else (far_offset body) false) id s (write_request id body s)
  unfolding write_request
  Good-write_request body short =
      let far = or_else (far_offset body) false in
      Good-bind far id s (get_string body) _ (λ (name, r) e.
        Good-bind far id s (get_u64 r) _ (λ (offset, r2) e2.
          Good-bind far id s (get_string r2) _ (λ (text, r3) e3.
            Good-write_at far id s name offset text (lookup name s.handles)
              (omega (
                arith,
                (get_string-short body _ e).1,
                get_u64-short r _ e2,
                (get_string-short r2 _ e3).0,
              ))
              (λ negative. rw (e, e2) negative))))

  widen :
      (type : ℕ) (body : Bytes)
      → ((type == 5) || (type == 6)) ≡ true
      → far_request type body ≡ or_else (far_offset body) false
  widen type body h = rw h refl

  pub request-Good :
      (env : Env) (type : ℕ) (body : Bytes)
      → length body ≤ 2 ^ 20
      → Good (far_request type body) id s (request env type id body s)
  unfolding request
  request-Good env type body short =
      let far = far_request type body in
      let P = Good far id s in
      if_rule P (type == 16) _ _
        (λ _. Good-on_path far id s (realpath_at env) body (Good-realpath far id s env))
        (λ _.
          if_rule P ((type == 17) || (type == 7)) _ _
            (λ _. Good-on_path far id s (stat_at env) body (Good-stat far id s env))
            (λ _.
              if_rule P (type == 3) _ _ (λ _. Good-open_request far id s env body)
                (λ _.
                  if_rule P (type == 6) _ _
                    (λ six. rw (widen type body (ground arith)) (Good-write_request body short))
                    (λ _.
                      if_rule P (type == 5) _ _
                        (λ five. rw (widen type body (ground arith)) (Good-read_request body))
                        (λ _.
                          if_rule P (type == 4) _ _ (λ _. Good-close_request far id s env body)
                            (λ _.
                              if_rule P (type == 18) _ _
                                (λ _. Good-rename_request far id s env body)
                                (λ _.
                                  if_rule P (type == 13) _ _
                                    (λ _.
                                      Good-on_path far id s (remove_at env) body
                                        (Good-remove far id s env))
                                    (λ _.
                                      if_rule P (type == 14) _ _
                                        (λ _.
                                          Good-on_path far id s mkdir_at body (Good-mkdir far id s))
                                        (λ _.
                                          if_rule P (type == 15) _ _
                                            (λ _.
                                              Good-on_path far id s rmdir_at body
                                                (Good-rmdir far id s))
                                            (λ _.
                                              if_rule P (type == 9) _ _
                                                (λ _. Good-setstat_request far id s env body)
                                                (λ _.
                                                  if_rule P (type == 11) _ _
                                                    (λ _.
                                                      Good-on_path far id s opendir_at body
                                                        (Good-opendir far id s))
                                                    (λ _.
                                                      if_rule P (type == 12) _ _
                                                        (λ _.
                                                          Good-readdir_request far id s env body)
                                                        (λ _. Good-same far id s 8 _)))))))))))))
