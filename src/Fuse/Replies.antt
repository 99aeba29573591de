-- ===== src/Fuse/Replies.antt =====
-- What a handler of internal/fuse/fs.go answers to the kernel.
pub data Errno : Type 0 where
  enoent enospc eio einval eexist eperm enotdir enotempty enodata erange : Errno

-- A reply, an error number, or a crash of the daemon.
pub data Reply {ℓ} (A : Type ℓ) : Type ℓ where
  done : A → Reply A
  fail : Errno → Reply A
  crash : Reply A
