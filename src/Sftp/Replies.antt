-- ===== src/Sftp/Replies.antt =====
-- What every handler does: it replies to the request's id, and keeps the limits of the file system.
use zent_loop.Common.{
  ℕ, Bool, true, false, not, ◌&&◌, ◌||◌, ◌∷◌, ◌++◌, Bytes, bytes_eq, nat_eq, Option, none, some,
  lookup, remove, or_else_rule, ◌≡◌, refl, arith, if_rule, length-remove-le,
}
use zent_loop.Files.{
  World, virtual_read_file, set_virtual_file, set_virtual_dir, delete_virtual_file, is_missing,
  dir_or,
}
use zent_loop.Files.Paths.{clean}
use zent_loop.Files.Bounds.{
  IsValid, write_file-IsValid, set_virtual_dir-IsValid, apply-IsValid, apply, delete_file,
}
use zent_loop.Sftp.{Handle, Sftp, Env, Outcome, replied, closed, crashed, status_reply}
use zent_loop.Sftp.Wire.{put_u32}
use zent_loop.Sftp.Handles.{or_failure}
use zent_loop.Sftp.Tree.{
  realpath_at, stat_at, remove_at, mkdir_at, rmdir_at, rename_found, moved, setstat_at, opendir_at,
  readdir_at, asked_mode, set_mode,
}

-- The reply begins with a type and the request's id.
abbrev pub Carries : ℕ → Bytes → Type 0
Carries id reply = (type : ℕ) × (rest : Bytes) × (reply ≡ type ∷ put_u32 id ++ rest)

-- A request is replied to with its id, and keeps the limits of the file system. It panics only if `far`.
unfoldable pub Good : Bool → ℕ → Sftp → Outcome → Type 0
Good far id s (replied reply t) = Carries id reply × (IsValid s.world → IsValid t.world)
Good far id s closed = ⊥
Good far id s crashed = far ≡ true

pub status-Carries : (id code : ℕ) (message : Bytes) → Carries id (status_reply id code message)
unfolding status_reply
status-Carries id code message = (101, _, refl)

module _ (far : Bool) (id : ℕ) (s : Sftp) where
  pub Good-status :
      (code : ℕ) (message : Bytes) (t : Sftp)
      → (IsValid s.world → IsValid t.world)
      → Good far id s (replied (status_reply id code message) t)
  unfolding Good
  Good-status code message t keep = (status-Carries id code message, keep)

  pub Good-same :
      (code : ℕ) (message : Bytes) → Good far id s (replied (status_reply id code message) s)
  Good-same code message = Good-status code message s (λ v. v)

  pub Good-or_failure :
      (o : Option Outcome)
      → ((a : Outcome) → o ≡ some a → Good far id s a)
      → Good far id s (or_failure id s o)
  Good-or_failure o good = or_else_rule (Good far id s) o _ (Good-same 4 _) good

  pub Good-realpath : (env : Env) (target : Bytes) → Good far id s (realpath_at env id target s)
  unfolding realpath_at Good
  Good-realpath env target = ((104, _, refl), λ v. v)

  pub Good-reply :
      (reply : Bytes) (t : Sftp)
      → Carries id reply
      → (IsValid s.world → IsValid t.world)
      → Good far id s (replied reply t)
  unfolding Good
  Good-reply reply t carries keep = (carries, keep)

  pub Good-stat : (env : Env) (target : Bytes) → Good far id s (stat_at env id target s)
  unfolding stat_at
  Good-stat env target =
      if_rule (Good far id s)
        (is_missing (virtual_read_file env.dynamic target s.world)
          && not (dir_or (lookup target s.world.dirs)))
        _ _ (λ _. Good-same 2 _) (λ _. Good-reply _ s (105, _, refl) (λ v. v))

  delete_file-IsValid :
      (target : Bytes) (w : World) → IsValid w → IsValid (delete_virtual_file target w)
  unfolding apply
  delete_file-IsValid target w = apply-IsValid (delete_file target) w

  pub set_file-IsValid :
      (target content : Bytes) (now : ℕ) (w : World)
      → IsValid w
      → IsValid (set_virtual_file target content now w).1
  unfolding set_virtual_file
  set_file-IsValid target content now w = write_file-IsValid (clean target) content now w

  pub Good-remove : (env : Env) (target : Bytes) → Good far id s (remove_at env id target s)
  unfolding remove_at
  Good-remove env target =
      if_rule (Good far id s) (is_missing (virtual_read_file env.dynamic target s.world)) _ _
        (λ _. Good-same 2 _) (λ _. Good-status 0 _ _ (delete_file-IsValid target s.world))

  pub Good-mkdir : (target : Bytes) → Good far id s (mkdir_at id target s)
  unfolding mkdir_at
  Good-mkdir target =
      Good-reply _ _
        (if_rule (Carries id) (set_virtual_dir target s.world).0 _ _ (λ _. status-Carries id 0 _)
          (λ _. status-Carries id 4 _))
        (set_virtual_dir-IsValid target s.world)

  without_dir-IsValid :
      (target : Bytes) (w : World) → IsValid w → IsValid (record w { dirs = remove target w.dirs })
  without_dir-IsValid target w v =
      (v.0, v.1, v.2, v.3, omega (arith, length-remove-le target w.dirs))

  pub Good-rmdir : (target : Bytes) → Good far id s (rmdir_at id target s)
  unfolding rmdir_at
  Good-rmdir target =
      if_rule (Good far id s) (dir_or (lookup target s.world.dirs)) _ _
        (λ _. Good-status 0 _ _ (without_dir-IsValid target s.world)) (λ _. Good-same 2 _)

  pub Good-rename_found :
      (env : Env) (old new : Bytes) (o : Option Bytes)
      → Good far id s (rename_found env id old new o s)
  Good-rename_found env old new none = Good-same 2 _
  Good-rename_found env old new (some content) =
      Good-moved old new (set_virtual_file new content env.now s.world)
        (set_file-IsValid new content env.now s.world)
    where
      Good-moved :
          (old new : Bytes) (p : Bool × World)
          → (IsValid s.world → IsValid p.1)
          → Good far id s (moved id old new p s)
      Good-moved old new (true, w) keep = Good-status 0 _ _ (λ v.
          delete_file-IsValid old (record w { file_meta = _; file_modes = _; file_attrs = _ })
            (keep v))
      Good-moved old new (false, w) keep = Good-status 2 _ _ keep

  pub Good-setstat :
      (env : Env) (target : Bytes) (flags : ℕ) (r : Bytes)
      → Good far id s (setstat_at env id target flags r s)
  unfolding setstat_at
  Good-setstat env target flags r =
      if_rule (Good far id s) (is_missing (virtual_read_file env.dynamic target s.world)) _ _
        (λ _.
          Good-reply _ s
            (if_rule (Carries id) (dir_or (lookup target s.world.dirs)) _ _
              (λ _. status-Carries id 0 _) (λ _. status-Carries id 2 _))
            (λ v. v))
        (λ _. Good-status 0 _ _ (set_mode-IsValid (asked_mode flags r)))
    where
      set_mode-IsValid : (o : Option ℕ) → IsValid s.world → IsValid (set_mode target o s.world)
      set_mode-IsValid none v = v
      set_mode-IsValid (some perm) v = v

  pub Good-opendir : (target : Bytes) → Good far id s (opendir_at id target s)
  unfolding opendir_at
  Good-opendir target =
      if_rule (Good far id s) (dir_or (lookup target s.world.dirs)) _ _
        (λ _. Good-reply _ _ (102, _, refl) (λ v. v)) (λ _. Good-same 2 _)

  pub Good-readdir :
      (env : Env) (name : Bytes) (o : Option Handle) → Good far id s (readdir_at env id name o s)
  unfolding readdir_at
  Good-readdir env name none = Good-same 1 _
  Good-readdir env name (some h) =
      if_rule (Good far id s) (not h.dir || h.listed) _ _ (λ _. Good-same 1 _)
        (λ _. Good-reply _ _ (104, _, refl) (λ v. v))
