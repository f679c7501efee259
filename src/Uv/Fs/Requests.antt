-- ===== src/Uv/Fs/Requests.antt =====
-- librustuv/src/raw/fs.rs: the requests to the file system, as libuv is asked and as it answers. A path
-- is its bytes. A file descriptor and a result are signed; times are in milliseconds.
use Prim.Native.Nat.{bit_and}
use green_rs.Prelude.{ℕ, ◌+◌, ◌*◌, ◌/◌, ◌%◌, ◌^◌, Option, List, ◌==◌, if◌then◌else◌, ℤ, is_negative}
use green_rs.Uv.Stream.{UvResult, uv_ok, uv_err}
use green_rs.Uv.Fs.{FileType, type_directory, type_file, other_type}

abbrev pub FilePath : Type 0
FilePath = List ℕ

-- The calls of libuv; `none` is the current position, -1.
pub data Request : Type 0 where
  close_file fsync fdatasync fstat : (fd : ℤ) → Request
  open_file : FilePath → (flags mode : ℕ) → Request
  read : (fd : ℤ) (len : ℕ) (position : Option ℕ) → Request
  write : (fd : ℤ) (buf : List ℕ) (position : Option ℕ) → Request
  unlink rmdir stat lstat readlink : FilePath → Request
  mkdir chmod : FilePath → (mode : ℕ) → Request
  readdir : FilePath → (flags : ℕ) → Request
  rename link : (path new_path : FilePath) → Request
  symlink : (path new_path : FilePath) (flags : ℕ) → Request
  chown : FilePath → (uid gid : ℕ) → Request
  ftruncate : (fd size : ℤ) → Request
  utime : FilePath → (atime mtime : ℕ) → Request

pub record Timespec : Type 0 where
  pub tv_sec : ℕ
  pub tv_nsec : ℕ

-- `uv_stat_t`, without the fields that go on to `UnstableFileStat`.
pub record UvStat : Type 0 where
  pub st_mode : ℕ
  pub st_size : ℕ
  pub st_birthtim : Timespec
  pub st_mtim : Timespec
  pub st_atim : Timespec

-- What a request holds once libuv has answered: its result, and what `uv_stat` and `get_ptr` give, and
-- what has been read.
pub record Answered : Type 0 where
  pub result : ℤ
  pub stat : UvStat
  pub ptr : List ℕ
  pub bytes : List ℕ

pub record FileStat : Type 0 where
  pub size : ℕ
  pub kind : FileType
  pub perm : ℕ
  pub created : ℕ
  pub modified : ℕ
  pub accessed : ℕ

-- The constants of libc for modes, and the bits of `FilePermission`.
pub record Modes : Type 0 where
  pub s_ifmt : ℕ
  pub s_ifreg : ℕ
  pub s_ifdir : ℕ
  pub permission_bits : ℕ

-- `result` of a request.
unfoldable pub result : ℤ → UvResult ℤ
result n = if is_negative n then uv_err n else uv_ok n

-- On `u64`.
unfoldable pub to_msec : Timespec → ℕ
to_msec t = (t.tv_sec * 1000 + t.tv_nsec / 1000000) % 2 ^ 64

-- The other file types of the source are one here.
unfoldable pub kind_of : Modes → ℕ → FileType
kind_of modes mode =
    let format = bit_and mode modes.s_ifmt in
    if format == modes.s_ifreg
    then type_file
    else if format == modes.s_ifdir
    then type_directory
    else other_type

unfoldable pub io_stat : Modes → UvStat → FileStat
unfolding kind_of to_msec
io_stat modes s = record {
  size = s.st_size % 2 ^ 64;
  kind = kind_of modes s.st_mode;
  perm = bit_and (s.st_mode % 2 ^ 32) modes.permission_bits;
  created = to_msec s.st_birthtim;
  modified = to_msec s.st_mtim;
  accessed = to_msec s.st_atim;
}
