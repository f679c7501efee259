-- ===== src/Examples/Files.antt =====
-- The loops around requests to a file system, on a small one.
use green_rs.Prelude.{
  ℕ, ◌+◌, ◌≡◌, refl, Option, none, some, List, [], ◌∷◌, ◌++◌, length, take, ltb, leb, arith, negsuc,
  if◌then◌else◌, ◌==◌, drop, ℤ, pos, false,
}
use green_rs.Uv.Stream.{UvResult, uv_ok, uv_err}
use green_rs.Uv.Fs
use green_rs.Uv.Fs.{FileType, type_directory, write_at, mkdir_recursive}
use green_rs.Uv.Fs.Directories.{IsMade, mkdir_recursive-IsMade}
use green_rs.Uv.Fs.Requests.{Request, Timespec, UvStat, Answered}
use green_rs.Uv.Fs.Files.{System, Constants, World, Run, returns}
use green_rs.Uv.Fs.Copy.{copy}
use green_rs.Uv.Fs.Closes.{After, nothing}
use green_rs.Uv.Fs.Closes.Copies.{copy-After}
use green_rs.Uv.Fs.Writes.{write_at-content}

-- A system that has all directories down to some depth.
abbrev stat : List ℕ → ℕ → UvResult FileType
stat path depth = if leb (length path) depth then uv_ok type_directory else uv_err (negsuc 1)

abbrev mkdir : List ℕ → ℕ → UvResult (Unit {0}) × ℕ
mkdir path depth = (uv_ok tt, length path + depth)

mkdir_makes :
    (path : List ℕ) (depth : ℕ)
    → (mkdir path depth).0 ≡ uv_ok tt
    → stat path (mkdir path depth).1 ≡ uv_ok type_directory
mkdir_makes path depth e = ground arith

mkdir_recursive-IsMade_example :
    IsMade stat mkdir mkdir_makes (4 ∷ 5 ∷ 6 ∷ []) (mkdir_recursive stat mkdir (4 ∷ 5 ∷ 6 ∷ []) 1)
mkdir_recursive-IsMade_example =
    mkdir_recursive-IsMade stat mkdir mkdir_makes (4 ∷ 5 ∷ 6 ∷ []) 1 refl

-- A file to which a request adds at most two bytes.
abbrev pub two_at_most : List ℕ → List ℕ → ℕ
two_at_most xs s = if ltb 2 (length xs) then 2 else length xs

abbrev append_some : Option ℕ → List ℕ → List ℕ → UvResult ℕ × List ℕ
append_some p xs s = (uv_ok (two_at_most xs s), s ++ take (two_at_most xs s) xs)

write_at-content_example :
    (s : List ℕ) × (write_at append_some 6 none (1 ∷ 2 ∷ 3 ∷ 4 ∷ 5 ∷ []) (9 ∷ [])
      ≡ some (uv_ok tt, s))
    × (s ≡ 9 ∷ 1 ∷ 2 ∷ 3 ∷ 4 ∷ 5 ∷ [])
write_at-content_example =
    write_at-content append_some (λ s. s) two_at_most (λ xs s. refl) (λ xs s h. ground (arith, h))
      (λ xs s. refl) 6 (1 ∷ 2 ∷ 3 ∷ 4 ∷ 5 ∷ []) (9 ∷ []) (omega arith)

-- A file system with one file to read and one to write: what is left of the first, and the second. Each
-- request reads or writes at most two bytes.
abbrev no_time : Timespec
no_time = record { tv_sec = 0; tv_nsec = 0 }

abbrev regular : UvStat
regular = record {
  st_mode = 33188;
  st_size = 5;
  st_birthtim = no_time;
  st_mtim = no_time;
  st_atim = no_time;
}

abbrev pub says : ℤ → List ℕ → Answered
says n bytes = record { result = n; stat = regular; ptr = []; bytes = bytes }

abbrev responds : Request → List ℕ × List ℕ → Answered × (List ℕ × List ℕ)
responds (Request.open_file _ flags _) s = (says (if flags == 0 then pos 3 else pos 4) [], s)
responds (Request.read _ _ _) (left, written) =
    (says (pos (two_at_most left written)) left, (drop (two_at_most left written) left, written))
responds (Request.write _ buf _) (left, written) =
    (says (pos (two_at_most buf written)) [], (left, written ++ take (two_at_most buf written) buf))
responds _ s = (says (pos 0) [], s)

abbrev small : System (List ℕ × List ℕ)
small = record { refuses = λ q s. none; responds = responds }

abbrev pub constants : Constants
constants = record {
  o_append = 1024;
  o_trunc = 512;
  o_rdonly = 0;
  o_wronly = 1;
  o_rdwr = 2;
  o_creat = 64;
  s_irusr = 256;
  s_iwusr = 128;
  modes = record { s_ifmt = 61440; s_ifreg = 32768; s_ifdir = 16384; permission_bits = 4095 };
  unknown = negsuc 4093;
  eof = negsuc 4094;
  einval = negsuc 21;
}

abbrev before : World (List ℕ × List ℕ)
before = record { files = (1 ∷ 2 ∷ 3 ∷ 4 ∷ 5 ∷ [], []); local_loop = some (77, false); made = [] }

copy-After_example :
    After 77 false nothing (λ d. 0) before (copy small constants 4 5 (8 ∷ []) (9 ∷ []) before)
copy-After_example = copy-After 77 small constants 4 5 (8 ∷ []) (9 ∷ []) before refl

abbrev files_of : {A : Type 0} → Run (List ℕ × List ℕ) A → Option (List ℕ × List ℕ)
files_of (returns r w) = some w.files
files_of _ = none

copied :
    files_of (copy small constants 4 5 (8 ∷ []) (9 ∷ []) before) ≡ some ([], 1 ∷ 2 ∷ 3 ∷ 4 ∷ 5 ∷ [])
unfolding copy write_at Fs.write_from
copied = refl
