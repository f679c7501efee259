-- ===== src/Uv/Fs/Copy.antt =====
-- `copy` of librustuv/src/fs.rs.
use green_rs.Prelude.{ℕ, zero, suc, ◌*◌, none, List, if◌then◌else◌, ◌==ℤ◌}
use green_rs.Uv.Stream.{uv_ok, uv_err}
use green_rs.Uv.Fs.{FileType, type_directory, type_file, other_type}
use green_rs.Uv.Fs.Requests.{FilePath}
use green_rs.Uv.Fs.Files.{
  Constants, System, Run, returns, panics, out_of_fuel, M, give, fail, ◌>>=◌, ◌>>◌, File, open_read,
  create, scope, read_at, write_at,
}
use green_rs.Uv.Fs.Operations.{stat, chmod}

-- The size of the buffer.
abbrev pub buffer_size : ℕ
buffer_size = 128 * 1024

module _ {S : Type 0} (sys : System S) (c : Constants) where
  -- The rest of a round after its read; `rest` is the next rounds.
  abbrev pub copy_chunk : (rounds : ℕ) → File → M S (Unit {0}) → Run S (List ℕ) → Run S (Unit {0})
  copy_chunk rounds writer rest (returns (uv_ok bytes) w) =
      (write_at sys c rounds writer bytes none >> rest) w
  copy_chunk rounds writer rest (returns (uv_err e) w) =
      if e ==ℤ c.eof then returns (uv_ok tt) w else returns (uv_err e) w
  copy_chunk rounds writer rest (panics f) = panics f
  copy_chunk rounds writer rest out_of_fuel = out_of_fuel

  -- The loop takes fuel for its rounds, and each write of a chunk takes some of its own.
  unfoldable pub copy_loop : (rounds fuel : ℕ) → (reader writer : File) → M S (Unit {0})
  unfolding read_at write_at
  copy_loop rounds zero reader writer w = out_of_fuel
  copy_loop rounds (suc fuel) reader writer w =
      copy_chunk rounds writer (copy_loop rounds fuel reader writer)
        (read_at sys c reader buffer_size none w)

  abbrev pub check_kind : FileType → M S (Unit {0})
  check_kind type_file = give tt
  check_kind type_directory = fail c.einval
  check_kind other_type = fail c.einval

  abbrev pub copy_into :
      (rounds fuel : ℕ) → (from to : FilePath) → (reader writer : File) → M S (Unit {0})
  copy_into rounds fuel from to reader writer = do
    copy_loop rounds fuel reader writer
    s ← stat sys c from
    chmod sys c to s.perm

  abbrev pub copy_from : (rounds fuel : ℕ) → (from to : FilePath) → (reader : File) → M S (Unit {0})
  copy_from rounds fuel from to reader = do
    writer ← create sys c to
    scope sys c writer (copy_into rounds fuel from to reader writer)

  unfoldable pub copy : (rounds fuel : ℕ) → (from to : FilePath) → M S (Unit {0})
  unfolding stat open_read create scope copy_loop chmod
  copy rounds fuel from to = do
    s ← stat sys c from
    check_kind s.kind
    reader ← open_read sys c from
    scope sys c reader (copy_from rounds fuel from to reader)
