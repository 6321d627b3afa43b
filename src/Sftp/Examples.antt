-- ===== src/Sftp/Examples.antt =====
-- Tests of the SFTP subsystem, and its theorems at concrete streams.
use zent_loop.Common.{
  ◌^◌, true, false, List, [], ◌∷◌, ◌++◌, Bytes, bytes_eq, bytes_beq, trim_right, trim_left,
  is_space, insert, remove, codes, none, some, ◌≡◌, ◌≢◌, refl, arith, lookup, length,
}
use zent_loop.Files.{
  World, set_virtual_file, virtual_storage_bytes, virtual_read_file, delete_virtual_file,
  can_store_virtual_content, limit_virtual_content, limit_to,
}
use zent_loop.Files.Paths.{clean}
use zent_loop.Files.Bounds.{IsValid}
use zent_loop.Sftp.{Upload, Sftp, Env, replied, crashed, ok_reply}
use zent_loop.Sftp.Wire.{
  get_u32, get_string, get_u64, put_u32, put_u64, put_string, write_packet, read_packet,
}
use zent_loop.Sftp.Handles.{read_request, new_handle, close_at}
use zent_loop.Sftp.Tree.{rename_at}
use zent_loop.Sftp.Framing.{read_packet-write_packet}
use zent_loop.Sftp.Session.{packet, run_virtual_sftp, out_of_fuel}
use zent_loop.Sftp.Replies.{Carries}
use zent_loop.Sftp.Loop.{
  state_after, far_packet, packet-far, packet-replied, run_virtual_sftp-IsValid,
  run_virtual_sftp-ends,
}
use zent_loop.Sftp.Sending.{send, joined, sent_handle, close_at-send}
use zent_loop.Sftp.Writing.{write_all, write_all-new_handle}
use zent_loop.Sftp.Handles.{write_at}

abbrev env : Env
env = record { now = 5; unix = 7; dynamic = λ p. none; sum256 = λ v. v }

abbrev new_world : World
new_world = record {
  cwd = codes "/root";
  home_dir = codes "/root";
  files = [];
  dirs = [];
  file_meta = [];
  file_modes = [];
  file_attrs = [];
}

abbrev fresh_session : Sftp
fresh_session = record { world = new_world; handles = []; next_handle = 1; uploads = [] }

-- open for writing (creating), write two pieces, close, and read the attributes
abbrev upload_stream : Bytes
upload_stream =
    write_packet (1 ∷ put_u32 3)
    ++ write_packet (3 ∷ put_u32 1 ++ put_string (codes "/tmp/a") ++ put_u32 26 ++ put_u32 0)
    ++ write_packet
        (6 ∷ put_u32 2 ++ put_string (codes "f1") ++ put_u64 0 ++ put_string (codes "hello "))
    ++ write_packet
        (6 ∷ put_u32 3 ++ put_string (codes "f1") ++ put_u64 6 ++ put_string (codes "world"))
    ++ write_packet (4 ∷ put_u32 4 ++ put_string (codes "f1"))

abbrev far_read : Bytes
far_read = 5 ∷ put_u32 9 ++ put_string (codes "f1") ++ put_u64 (2 ^ 63) ++ put_u32 16

abbrev reading : Sftp
reading = record fresh_session {
  handles = (codes "f1", new_handle (codes "/tmp/a") false true (codes "abc")) ∷ [];
}

-- A read at a negative `int(offset)` panics.
far_read_crashes : packet env far_read reading ≡ crashed
unfolding packet get_u32 put_u32 put_u64 put_string get_string get_u64 read_request lookup bytes_beq
far_read_crashes = refl

-- A file that is renamed to its own name is gone.
abbrev renamed : Sftp
renamed = state_after fresh_session (
    rename_at env 3 (codes "/tmp/a") (codes "/tmp/a") (record fresh_session {
      world = (set_virtual_file (codes "/tmp/a") (codes "abc") 5 new_world).1;
    }))

renamed_is_gone : renamed.world.files ≡ []
unfolding rename_at set_virtual_file virtual_read_file delete_virtual_file bytes_beq clean
    can_store_virtual_content virtual_storage_bytes limit_virtual_content trim_right trim_left
    is_space lookup limit_to insert remove
renamed_is_gone = refl

packet-far_example : far_packet far_read ≡ true
unfolding put_u32 put_u64 put_string
packet-far_example = packet-far env far_read reading (omega arith) far_read_crashes

packet-replied_example :
    (reply : Bytes) × (t : Sftp) × (packet env (5 ∷ put_u32 9 ++ []) reading ≡ replied reply t)
    × Carries 9 reply
unfolding get_u32 get_string
packet-replied_example =
    packet-replied env 5 9 [] reading (omega arith) (omega arith) (omega arith) refl

new_world-IsValid : IsValid new_world
unfolding virtual_storage_bytes
new_world-IsValid = (tt, omega arith, tt, omega arith, omega arith)

run_virtual_sftp-IsValid_example :
    IsValid (run_virtual_sftp 300 env upload_stream fresh_session).1.world
run_virtual_sftp-IsValid_example =
    run_virtual_sftp-IsValid env 300 upload_stream fresh_session new_world-IsValid

run_virtual_sftp-ends_example :
    (run_virtual_sftp 200 env upload_stream fresh_session).0 ≢ out_of_fuel
unfolding write_packet put_u32 put_u64 put_string
run_virtual_sftp-ends_example =
    run_virtual_sftp-ends env 200 upload_stream fresh_session (omega arith)

read_packet-write_packet_example :
    read_packet (write_packet (1 ∷ 2 ∷ []) ++ 3 ∷ []) ≡ some (1 ∷ 2 ∷ [], 3 ∷ [])
read_packet-write_packet_example =
    read_packet-write_packet (1 ∷ 2 ∷ []) (3 ∷ []) (omega arith) (omega arith)

abbrev pieces : List Bytes
pieces = codes "hello " ∷ codes "world" ∷ []

abbrev writing : Sftp
writing = record fresh_session {
  handles = (codes "f1", new_handle (codes "/tmp/a") true false []) ∷ [];
}

write_all-new_handle_example :
    (t : Sftp) × (u : Sftp) × (write_all 7 (codes "f1") 0 pieces writing ≡ some t)
    × (lookup (codes "f1") t.handles
        ≡ some (sent_handle (codes "/tmp/a") false (codes "hello world")))
    × (t.world ≡ new_world)
    × (t.uploads ≡ [])
    × (write_at 7 (codes "f1") 11 (codes "!") (lookup (codes "f1") t.handles) t
        ≡ replied (ok_reply 7) u)
unfolding joined lookup bytes_beq
write_all-new_handle_example =
    write_all-new_handle 7 (codes "f1") (codes "/tmp/a") false pieces (codes "!") writing
      (omega arith, (omega arith, tt)) (omega arith) (omega arith) refl

abbrev stored_world : World
stored_world = (set_virtual_file (codes "/tmp/a") (codes "hello world") 5 new_world).1

close_at-send_example :
    (t : Sftp) × (up : Upload) × (close_at env 7
        (codes "f1")
        (send 0 pieces (new_handle (codes "/tmp/a") true false []))
        fresh_session
      ≡ replied (ok_reply 7) t)
    × (t.uploads ≡ up ∷ [])
    × (up.path ≡ codes "/tmp/a")
    × (up.total ≡ length (joined pieces))
    × (up.sum ≡ joined pieces)
unfolding joined set_virtual_file lookup virtual_storage_bytes limit_to
close_at-send_example =
    close_at-send env 7 (codes "f1") (codes "/tmp/a") false pieces fresh_session stored_world
      (omega arith, (omega arith, tt)) (omega arith) refl
