-- ===== src/Sftp/Session.antt =====
-- The choice between the requests, and the loop over the packets of the channel.
use zent_loop.Common.{
  ℕ, zero, suc, [], ◌∷◌, ◌++◌, Bytes, nat_eq, Option, none, some, ◌==◌, ◌||◌, if◌then◌else◌, codes,
}
use zent_loop.Sftp.{Sftp, Env, Outcome, replied, closed, crashed, status_reply}
use zent_loop.Sftp.Wire.{put_u32, get_u32, read_packet, write_packet}
use zent_loop.Sftp.Handles.{open_request, write_request, read_request, close_request}
use zent_loop.Sftp.Tree.{
  on_path, realpath_at, stat_at, remove_at, mkdir_at, rmdir_at, rename_request, setstat_request,
  opendir_at, readdir_request,
}

abbrev pub unsupported_reply : ℕ → Bytes
unsupported_reply id = status_reply id 8 (codes "Operation unsupported")

-- The `switch` on the type of the packet.
unfoldable pub request : Env → ℕ → ℕ → Bytes → Sftp → Outcome
request env type id body s =
    if type == 16
    then on_path (realpath_at env) id body s
    else if (type == 17) || (type == 7)
    then on_path (stat_at env) id body s
    else if type == 3
    then open_request env id body s
    else if type == 6
    then write_request id body s
    else if type == 5
    then read_request id body s
    else if type == 4
    then close_request env id body s
    else if type == 18
    then rename_request env id body s
    else if type == 13
    then on_path (remove_at env) id body s
    else if type == 14
    then on_path mkdir_at id body s
    else if type == 15
    then on_path rmdir_at id body s
    else if type == 9
    then setstat_request env id body s
    else if type == 11
    then on_path opendir_at id body s
    else if type == 12
    then readdir_request env id body s
    else replied (unsupported_reply id) s

abbrev pub with_id : Env → ℕ → Option (ℕ × Bytes) → Sftp → Outcome
with_id env type none s = closed
with_id env type (some (id, body)) s = request env type id body s

-- One packet: a type, the request's id, and its arguments; an `init` has no id.
unfoldable pub packet : Env → Bytes → Sftp → Outcome
unfolding request
packet env [] s = closed
packet env (type ∷ v) s =
    if type == 1 then replied (2 ∷ put_u32 3) s else with_id env type (get_u32 v) s

-- What the loop ends with: the stream or the session is over, or a packet made it panic. The fuel of
-- the model may run out, too.
pub data End : Type 0 where
  finished panicked out_of_fuel : End

abbrev pub after : (Bytes → Sftp → End × Sftp × Bytes) → Bytes → Sftp → Outcome → End × Sftp × Bytes
after next rest s closed = (finished, s, [])
after next rest s crashed = (panicked, s, [])
after next rest s (replied reply t) =
    let (end, u, out) = next rest t in (end, u, write_packet reply ++ out)

abbrev pub next_packet :
    Env → (Bytes → Sftp → End × Sftp × Bytes) → Option (Bytes × Bytes) → Sftp → End × Sftp × Bytes
next_packet env next none s = (finished, s, [])
next_packet env next (some (p, rest)) s = after next rest s (packet env p s)

-- The loop, from the bytes that the client sends to those that are sent back.
unfoldable pub run_virtual_sftp : ℕ → Env → Bytes → Sftp → End × Sftp × Bytes
unfolding packet
run_virtual_sftp zero env stream s = (out_of_fuel, s, [])
run_virtual_sftp (suc fuel) env stream s =
    next_packet env (run_virtual_sftp fuel env) (read_packet stream) s
