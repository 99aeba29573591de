-- ===== src/Tests/Commands.antt =====
-- `fusey unmount` with two daemons.
use fusey.Base.{Bytes, ltb, true, some, List, [], ◌∷◌, ◌≡◌, refl, bytes_beq}
use fusey.Daemon.Commands.{
  mount, command_of, mount_name, DaemonInfo, Entry, Process, serves, find_daemon, run_unmount,
  IsFirst, run_unmount-IsFirst, not_signalled,
}

unfoldable commands : Unit {0}
unfolding bytes_beq command_of serves find_daemon run_unmount
commands = tt

-- A PID file is the number of the process and the mountpoint.
abbrev info_of : Bytes → DaemonInfo
info_of [] = record { pid = 0; mountpoint = [] }
info_of (pid ∷ path) = record { pid = pid; mountpoint = path }

abbrev processes : Process
processes = record {
  decode_info = λ d. some (info_of d);
  abs = λ path. some (b'/' ∷ path);
  finds = λ pid. true;
  signals = λ pid. true;
}

abbrev entry : Bytes → Bytes → Entry
entry name file = record { name = name; is_dir = true; pid_file = some file }

abbrev mounts : List Entry
mounts = entry (b'x' ∷ []) (7 ∷ b'a' ∷ []) ∷ entry (b'y' ∷ []) (8 ∷ b'b' ∷ []) ∷ []

run_unmount-IsFirst_example :
    (abs : Bytes) × (processes.abs (b'b' ∷ []) ≡ some abs)
    × IsFirst processes abs (b'y' ∷ []) 8 mounts
unfolding commands
run_unmount-IsFirst_example = run_unmount-IsFirst processes (b'b' ∷ []) (b'y' ∷ []) 8 mounts refl

mounts_there : command_of ([] ∷ mount_name ∷ (b'm' ∷ []) ∷ []) ≡ mount (b'm' ∷ [])
unfolding commands
mounts_there = refl

-- The PID file of a daemon that has crashed stands before that of the daemon that serves the mountpoint.
abbrev crashed : Process
crashed = record {
  decode_info = λ d. some (info_of d);
  abs = λ path. some path;
  finds = λ pid. true;
  signals = λ pid. ltb 7 pid;
}

abbrev stale : List Entry
stale = entry (b'x' ∷ []) (7 ∷ b'a' ∷ []) ∷ entry (b'y' ∷ []) (8 ∷ b'a' ∷ []) ∷ []

stale_blocks : run_unmount crashed (b'a' ∷ []) (some stale) ≡ not_signalled 7
unfolding commands
stale_blocks = refl
