-- ===== src/Status.antt =====
-- What a handler returns: a count of bytes, 0 among them, or the negative of an errno.
use ical_fs.Base.{ℕ, Bool, true, false}

pub data Errno : Type 0 where
  enoent enonet eexist eperm eio enotdir eisdir enotempty einval emsgsize enodata enomem : Errno

pub data Status : Type 0 where
  done : ℕ → Status
  error : Errno → Status

-- `status >= 0`
abbrev pub is_done : Status → Bool
is_done (done n) = true
is_done (error e) = false
