-- ===== src/Daemon/Commands.antt =====
-- The command line of cmd/fusey/main.go: which command the arguments ask for, what a configuration has
-- to say, which daemon `fusey unmount` ends, and what a tick of a daemon does.
use fusey.Base.{
  ℕ, Bytes, Bool, true, not, Option, none, some, List, [], ◌∷◌, ◌==◌, ◌&&◌, ◌||◌, ◌≡◌, inl, inr,
  arith, ap, ◌∙◌, bytes_key, bytes_beq_iff, if◌then◌else◌, Option-cases,
}
use fusey.Index.Snapshots.{is_dirty, is_remote_dirty}
use fusey.Persist.Saving.{Codec, DiskReplies}
use fusey.Config.{Parsers, Config, Loaded, loaded, failed}
use fusey.Daemon.Defs.{ObjectStore, Daemon, persist}

pub data Command : Type 0 where
  print_version compact usage : Command
  mount unmount : Bytes → Command
  daemon : Bytes → Bytes → Command
  unknown : Bytes → Command

abbrev pub mount_name : Bytes
mount_name = b'm' ∷ b'o' ∷ b'u' ∷ b'n' ∷ b't' ∷ []

abbrev pub unmount_name : Bytes
unmount_name = b'u' ∷ b'n' ∷ mount_name

abbrev daemon_name : Bytes
daemon_name = b'd' ∷ b'a' ∷ b'e' ∷ b'm' ∷ b'o' ∷ b'n' ∷ []

abbrev compact_name : Bytes
compact_name = b'c' ∷ b'o' ∷ b'm' ∷ b'p' ∷ b'a' ∷ b'c' ∷ b't' ∷ []

abbrev version_name : Bytes
version_name = b'v' ∷ b'e' ∷ b'r' ∷ b's' ∷ b'i' ∷ b'o' ∷ b'n' ∷ []

abbrev is_version_flag : Bytes → Bool
is_version_flag arg = arg == b'-' ∷ b'-' ∷ version_name || arg == b'-' ∷ b'v' ∷ []

abbrev with_one : (Bytes → Command) → List Bytes → Command
with_one command (arg ∷ []) = command arg
with_one command _ = usage

abbrev with_two : (Bytes → Bytes → Command) → List Bytes → Command
with_two command (arg ∷ arg2 ∷ []) = command arg arg2
with_two command _ = usage

-- main, of os.Args; `usage` and `unknown` are its calls of log.Fatal.
unfoldable pub command_of : List Bytes → Command
command_of [] = usage
command_of (program ∷ []) = usage
command_of (program ∷ name ∷ args) =
    if is_version_flag name
    then print_version
    else if name == mount_name
    then with_one mount args
    else if name == daemon_name
    then with_two daemon args
    else if name == unmount_name
    then with_one unmount args
    else if name == compact_name
    then compact
    else if name == version_name
    then print_version
    else unknown name

-- mustLoadConfig; `none` is log.Fatal.
unfoldable pub must_load_config : {P : Parsers} → Loaded (Config P) → Option (Config P)
must_load_config (failed e) = none
must_load_config (loaded c) = if c.broker_url == [] && c.bucket == [] then none else some c

-- daemonInfo
pub record DaemonInfo : Type 0 where
  pub pid : ℕ
  pub mountpoint : Bytes

-- An entry of the cache directory, with what ReadFile of its daemon.pid gives.
pub record Entry : Type 0 where
  pub name : Bytes
  pub is_dir : Bool
  pub pid_file : Option Bytes

-- What runUnmount uses of the libraries: JSON, filepath.Abs, and whether a process is found and takes
-- the signal.
pub record Process : Type 0 where
  pub decode_info : Bytes → Option DaemonInfo
  pub abs : Bytes → Option Bytes
  pub finds : ℕ → Bool
  pub signals : ℕ → Bool

-- The outcomes of runUnmount; all but `signalled` end by log.Fatal.
pub data Unmounted : Type 0 where
  signalled : Bytes → ℕ → Unmounted
  not_found not_signalled : ℕ → Unmounted
  no_daemon bad_path bad_cache_dir : Unmounted

module _ (P : Process) where
  -- infoAbs, _ := filepath.Abs(...), which is empty if that fails.
  abbrev abs_or_empty : Bytes → Bytes
  abs_or_empty path = elim (P.abs path) [ none ↦ [] | some a ↦ a ]

  abbrev decoded : Option Bytes → Option DaemonInfo
  decoded none = none
  decoded (some d) = P.decode_info d

  -- The daemon that an entry stands for, if it serves the mountpoint.
  unfoldable pub serves : Bytes → Entry → Option ℕ
  serves abs e = elim (decoded e.pid_file) [
    | none ↦ none
    | some info ↦ if e.is_dir && abs_or_empty info.mountpoint == abs then some info.pid else none
  ]

  abbrev terminate : Bytes → ℕ → Unmounted
  terminate name pid =
      if not (P.finds pid)
      then not_found pid
      else if not (P.signals pid)
      then not_signalled pid
      else signalled name pid

  -- The loop of runUnmount.
  unfoldable pub find_daemon : Bytes → List Entry → Unmounted
  find_daemon abs [] = no_daemon
  find_daemon abs (e ∷ es) =
      let rest = find_daemon abs es in
      elim (serves abs e) [ none ↦ rest | some pid ↦ terminate e.name pid ]

  -- runUnmount; `none` is a cache directory that cannot be read.
  unfoldable pub run_unmount : Bytes → Option (List Entry) → Unmounted
  run_unmount mountpoint entries = elim (P.abs mountpoint) [
    | none ↦ bad_path
    | some abs ↦ elim entries [ none ↦ bad_cache_dir | some es ↦ find_daemon abs es ]
  ]

  -- The entry is a directory with a PID file that names the mountpoint and the process.
  pub record IsServing (abs : Bytes) (e : Entry) (pid : ℕ) : Type 0 where
    pub is_dir : e.is_dir ≡ true
    pub file :
        (d : Bytes) × (e.pid_file ≡ some d)
        × ((info : DaemonInfo) × (P.decode_info d ≡ some info)
            × (info.pid ≡ pid)
            × (abs_or_empty info.mountpoint ≡ abs))

  serves-IsServing :
      (abs : Bytes) (e : Entry) (pid : ℕ) → serves abs e ≡ some pid → IsServing abs e pid
  unfolding serves
  serves-IsServing abs e pid h = elim (Option-cases e.pid_file) [
    | inl unreadable ↦ absurd (ground arith)
    | inr (d, read) ↦ elim (Option-cases (P.decode_info d)) [
      | inl garbled ↦ absurd (ground arith)
      | inr (info, is_info) ↦ record {
        is_dir = ground arith;
        file = (
          d,
          read,
          (
            info,
            is_info,
            ground arith,
            ground (arith, bytes_beq_iff (abs_or_empty info.mountpoint) abs),
          ),
        );
      }
    ]
  ]

  IsServing-serves :
      (abs : Bytes) (e : Entry) (pid : ℕ) → IsServing abs e pid → serves abs e ≡ some pid
  unfolding serves
  IsServing-serves abs e pid x =
      let (d, read, (info, is_info, process, same)) = x.file in
      ground (arith, x.is_dir, bytes_beq_iff (abs_or_empty info.mountpoint) abs)

  -- The first entry that serves the mountpoint has the name and the process.
  pub data IsFirst (abs name : Bytes) (pid : ℕ) : List Entry → Type 0 where
    first :
        (e : Entry) (es : List Entry)
        → IsServing abs e pid
        → e.name ≡ name
        → IsFirst abs name pid (e ∷ es)
    later :
        (e : Entry) (es : List Entry)
        → ((other : ℕ) → ¬ IsServing abs e other)
        → IsFirst abs name pid es
        → IsFirst abs name pid (e ∷ es)

  find_daemon-IsFirst :
      (abs : Bytes) (es : List Entry) (name : Bytes) (pid : ℕ)
      → find_daemon abs es ≡ signalled name pid
      → IsFirst abs name pid es
  unfolding find_daemon
  find_daemon-IsFirst abs [] name pid h = absurd (ground arith)
  find_daemon-IsFirst abs (e ∷ es) name pid h = elim (Option-cases (serves abs e)) [
    | inl idle ↦
        later e es (λ other x. absurd (ground (arith, IsServing-serves abs e other x)))
          (find_daemon-IsFirst abs es name pid (ground arith))
    | inr (found, serving) ↦
        first e es (serves-IsServing abs e pid (serving ∙ ap some (ground arith))) (ground arith)
  ]

  -- `fusey unmount` ends no daemon but the first in the cache directory whose PID file names the
  -- mountpoint: if it sends the signal to a process, that is the one of that file.
  pub run_unmount-IsFirst :
      (mountpoint name : Bytes) (pid : ℕ) (es : List Entry)
      → run_unmount mountpoint (some es) ≡ signalled name pid
      → (abs : Bytes) × (P.abs mountpoint ≡ some abs) × IsFirst abs name pid es
  unfolding run_unmount
  run_unmount-IsFirst mountpoint name pid es h = elim (Option-cases (P.abs mountpoint)) [
    | inl bad ↦ absurd (ground arith)
    | inr (abs, good) ↦ (abs, good, find_daemon-IsFirst abs es name pid (ground arith))
  ]

-- A tick of the periodic persistence; its error is only logged.
module _ (O : ObjectStore) (C : Codec) where
  unfoldable pub tick : DiskReplies → Daemon O C → Daemon O C
  tick io g = if is_dirty g.idx || is_remote_dirty g.idx then (persist O C io g).0 else g
