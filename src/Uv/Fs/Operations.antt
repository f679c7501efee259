-- ===== src/Uv/Fs/Operations.antt =====
-- The functions of librustuv/src/fs.rs around one request each, and the methods of its files.
use green_rs.Prelude.{
  ℕ, zero, suc, ◌-◌, ◌^◌, Option, none, some, List, map, ℤ, pos, negsuc, magnitude,
}
use green_rs.Uv.Fs.Requests
use green_rs.Uv.Fs.Requests.{FilePath, FileStat}
use green_rs.Uv.Fs.Files.{
  Constants, System, M, give, ◌>>=◌, with_loop, File, execute, request_nop, request_stat,
}

-- `wrap`: a file for a descriptor.
unfoldable pub wrap : ℤ → FilePath → File
wrap fd path = record { fd = fd; path = path }

pub data SeekStyle : Type 0 where
  seek_set seek_cur seek_end : SeekStyle

-- `lseek` of libc, and its constants in this order; a `none` is the error of the system.
module _ (lseek : (fd pos : ℤ) → (whence : ℕ) → ℤ) (set cur end : ℕ) where
  unfoldable pub seek_common : File → ℤ → ℕ → Option ℕ
  seek_common f position whence = elim (lseek f.fd position whence) [
    | negsuc zero ↦ none
    | negsuc (suc n) ↦ some (2 ^ 64 - suc (suc n))
    | pos n ↦ some n
  ]

  unfoldable pub tell : File → Option ℕ
  unfolding seek_common
  tell f = seek_common f (pos 0) cur

  unfoldable pub whence_of : SeekStyle → ℕ
  whence_of seek_set = set
  whence_of seek_cur = cur
  whence_of seek_end = end

  unfoldable pub seek : File → ℤ → SeekStyle → Option (Unit {0})
  unfolding seek_common whence_of
  seek f position style = elim (seek_common f position (whence_of style)) [
    | none ↦ none
    | some _ ↦ some tt
  ]

module _ {S : Type 0} (sys : System S) (c : Constants) where
  unfoldable pub fsync : File → M S (Unit {0})
  unfolding request_nop
  fsync f = request_nop sys c (Requests.fsync f.fd)

  unfoldable pub datasync : File → M S (Unit {0})
  unfolding request_nop
  datasync f = request_nop sys c (Requests.fdatasync f.fd)

  unfoldable pub truncate : File → ℤ → M S (Unit {0})
  unfolding request_nop
  truncate f size = request_nop sys c (Requests.ftruncate f.fd size)

  unfoldable pub fstat : File → M S FileStat
  unfolding request_stat
  fstat f = request_stat sys c (Requests.fstat f.fd)

  -- libuv takes seconds, of which the arguments here are thousandths.
  unfoldable pub change_file_times : FilePath → (atime mtime : ℕ) → M S (Unit {0})
  unfolding request_nop
  change_file_times path atime mtime = request_nop sys c (Requests.utime path atime mtime)

  unfoldable pub chmod : FilePath → (mode : ℕ) → M S (Unit {0})
  unfolding request_nop
  chmod path mode = request_nop sys c (Requests.chmod path mode)

  unfoldable pub chown : FilePath → (uid gid : ℕ) → M S (Unit {0})
  unfolding request_nop
  chown path uid gid = request_nop sys c (Requests.chown path uid gid)

  unfoldable pub symlink : (src dst : FilePath) → M S (Unit {0})
  unfolding request_nop
  symlink src dst = request_nop sys c (Requests.symlink src dst 0)

  unfoldable pub link : (src dst : FilePath) → M S (Unit {0})
  unfolding request_nop
  link src dst = request_nop sys c (Requests.link src dst)

  unfoldable pub mkdir : FilePath → (mode : ℕ) → M S (Unit {0})
  unfolding request_nop
  mkdir dir mode = request_nop sys c (Requests.mkdir dir mode)

  unfoldable pub rmdir : FilePath → M S (Unit {0})
  unfolding request_nop
  rmdir dir = request_nop sys c (Requests.rmdir dir)

  unfoldable pub lstat : FilePath → M S FileStat
  unfolding request_stat
  lstat path = request_stat sys c (Requests.lstat path)

  unfoldable pub stat : FilePath → M S FileStat
  unfolding request_stat
  stat path = request_stat sys c (Requests.stat path)

  unfoldable pub rename : (src dst : FilePath) → M S (Unit {0})
  unfolding request_nop
  rename src dst = request_nop sys c (Requests.rename src dst)

  unfoldable pub unlink : FilePath → M S (Unit {0})
  unfolding request_nop
  unlink path = request_nop sys c (Requests.unlink path)

  -- `Path::new` and `join` of the standard library, and its strings up to a NUL, one or at most some
  -- number of them.
  module _ (path_new : List ℕ → FilePath) (join : FilePath → List ℕ → FilePath)
      (c_string : List ℕ → List ℕ) (c_multistring : List ℕ → ℕ → List (List ℕ)) where
    unfoldable pub readlink : FilePath → M S FilePath
    unfolding with_loop execute
    readlink path =
        with_loop c.unknown
          (do a ← execute sys (Requests.readlink path); give (path_new (c_string a.ptr)))

    unfoldable pub readdir : FilePath → M S (List FilePath)
    unfolding with_loop execute
    readdir path = with_loop c.unknown (do
      a ← execute sys (Requests.readdir path 0)
      give (map (join path) (c_multistring a.ptr (magnitude a.result))))
