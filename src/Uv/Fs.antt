-- ===== src/Uv/Fs.antt =====
-- librustuv/src/fs.rs: requests to the file system, and the loops around them. A path is the list of its
-- components from the root or the current directory. What the file system answers is a parameter.
pub mod Directories
pub mod Writes
pub mod Removal
pub mod Gone
pub mod Requests
pub mod Files
pub mod Operations
pub mod Copy
pub mod Closes
pub mod Served
use green_rs.Prelude.{
  ℕ, zero, suc, ◌+◌, Bool, true, false, Option, none, some, List, [], ◌∷◌, ◌++◌, Result, ok, fault,
  if◌then◌else◌, ltb, length, drop, take, split_last, ℤ, pos, is_negative, ◌==ℤ◌, magnitude,
}
use green_rs.Uv.Block.{wakeup}
use green_rs.Uv.Stream.{UvResult, uv_ok, uv_err}

pub data FileType : Type 0 where
  type_directory type_file other_type : FileType

-- A request: whether it has been sent, and how often it has been cleaned up and freed.
pub record Fs : Type 0 where
  pub fired : Bool
  pub cleaned : ℕ
  pub freed : ℕ

-- The drop of a request.
unfoldable pub drop_fs : Fs → Fs
drop_fs r = record r { cleaned = if r.fired then r.cleaned + 1 else r.cleaned; freed = r.freed + 1 }

-- `execute` until its task blocks: the request, and the slot of the task if the request is not refused.
unfoldable pub execute_begin : (task : ℕ) → (send : Option ℤ) → Fs × UvResult (Option ℕ)
unfolding drop_fs
execute_begin task none = (record { fired = true; cleaned = 0; freed = 0 }, uv_ok (some task))
execute_begin task (some e) = (drop_fs (record { fired = false; cleaned = 0; freed = 0 }), uv_err e)

-- `fs_cb` wakes the task.
unfoldable pub fs_cb : Option ℕ → Result (ℕ × Option ℕ)
unfolding wakeup
fs_cb slot = wakeup slot

-- `execute` after its task has been reawakened: on an error, the request is dropped.
unfoldable pub execute_end : (result : ℤ) → Fs → Fs × UvResult ℤ
unfolding drop_fs
execute_end result r = if is_negative result then (drop_fs r, uv_err result) else (r, uv_ok result)

-- `read_at` with the result of its request.
unfoldable pub read_at : (eof : ℤ) → UvResult ℤ → UvResult ℕ
read_at eof (uv_err e) = uv_err e
read_at eof (uv_ok n) = if n ==ℤ pos 0 then uv_err eof else uv_ok (magnitude n)

abbrev at : Option ℕ → ℕ → Option ℕ
at none amt = none
at (some p) amt = some (p + amt)

-- `request` writes some of a buffer to a position, or to the current one. `none` is fuel that ran out.
module _ {ℓ κ} {S : Type ℓ} {A : Type κ} (request : Option ℕ → List A → S → UvResult ℕ × S) where
  unfoldable pub write_from : ℕ → Option ℕ → List A → ℕ → S → Option (UvResult (Unit {0}) × S)
  write_from zero p buf amt s = none
  write_from (suc fuel) p buf amt s =
      let (answer, s') = request (at p amt) (drop amt buf) s in
      let more : Option (UvResult (Unit {0}) × S) = elim answer [
        | uv_err e ↦ some (uv_err e, s')
        | uv_ok n ↦ write_from fuel p buf (amt + n) s'
      ] in
      if ltb amt (length buf) then more else some (uv_ok tt, s)

  unfoldable pub write_at : ℕ → Option ℕ → List A → S → Option (UvResult (Unit {0}) × S)
  write_at fuel p buf s = write_from fuel p buf 0 s

module _ {ℓ} {S : Type ℓ} (stat : List ℕ → S → UvResult FileType)
    (mkdir : List ℕ → S → UvResult (Unit {0}) × S) where
  -- Whether a failure of `mkdir` stands.
  abbrev mkdir_failed : ℤ → UvResult FileType → Option ℤ
  mkdir_failed mkdir_err (uv_ok type_directory) = none
  mkdir_failed mkdir_err (uv_ok type_file) = some mkdir_err
  mkdir_failed mkdir_err (uv_ok other_type) = some mkdir_err
  mkdir_failed mkdir_err (uv_err e) = some e

  abbrev mkdir_error : List ℕ → UvResult (Unit {0}) → S → Option ℤ
  mkdir_error curpath (uv_ok _) s = none
  mkdir_error curpath (uv_err e) s = mkdir_failed e (stat curpath s)

  unfoldable pub mkdir_all : List ℕ → List ℕ → S → UvResult (Unit {0}) × S
  mkdir_all curpath [] s = (uv_ok tt, s)
  mkdir_all curpath (c ∷ comps) s =
      let next = curpath ++ c ∷ [] in
      let (result, s') = mkdir next s in
      let rest = mkdir_all next comps s' in
      elim (mkdir_error next result s') [ none ↦ rest | some e ↦ (uv_err e, s') ]

  unfoldable pub mkdir_recursive : List ℕ → S → UvResult (Unit {0}) × S
  mkdir_recursive path s = elim (stat path s) [
    | uv_ok type_directory ↦ (uv_ok tt, s)
    | _ ↦ mkdir_all [] path s
  ]
