-- ===== src/Uv/Fs/Removal.antt =====
-- `rmdir_recursive` of librustuv/src/fs.rs. The stack's top comes first.
use green_rs.Prelude.{
  ℕ, zero, suc, Bool, true, false, Option, none, some, List, [], ◌∷◌, if◌then◌else◌, ℤ, ◌==ℤ◌,
}
use green_rs.Uv.Stream.{UvResult, uv_ok, uv_err}
use green_rs.Uv.Fs.{FileType, type_directory, type_file, other_type}

-- What the file system answers; `enoent` is libuv's ENOENT.
module _ {ℓ} {S : Type ℓ} (readdir : List ℕ → S → UvResult (List (List ℕ)))
    (lstat : List ℕ → S → UvResult FileType) (unlink rmdir : List ℕ → S → UvResult (Unit {0}) × S)
    (enoent : ℤ) where
  -- What is gone already is no error.
  abbrev pub error_of : UvResult (Unit {0}) → Option ℤ
  error_of (uv_ok _) = none
  error_of (uv_err e) = if e ==ℤ enoent then none else some e

  -- The loop over the children of a directory: the stack, and whether it has a new directory.
  unfoldable pub delete_children :
      List (List ℕ) → List (List ℕ) → Bool → S → UvResult (List (List ℕ) × Bool) × S
  delete_children [] rm_stack has_child_dir s = (uv_ok (rm_stack, has_child_dir), s)
  delete_children (child ∷ rest) rm_stack has_child_dir s =
      let (result, s') = unlink child s in
      let pushed = delete_children rest (child ∷ rm_stack) true s in
      let deleted = delete_children rest rm_stack has_child_dir s' in
      let unlinked : UvResult (List (List ℕ) × Bool) × S = elim (error_of result) [
        | none ↦ deleted
        | some e ↦ (uv_err e, s')
      ] in
      elim (lstat child s) [
        | uv_err e ↦ (uv_err e, s)
        | uv_ok type_directory ↦ pushed
        | uv_ok type_file ↦ unlinked
        | uv_ok other_type ↦ unlinked
      ]

  -- `none` is fuel that ran out.
  unfoldable pub rmdir_loop : ℕ → List (List ℕ) → S → Option (UvResult (Unit {0}) × S)
  rmdir_loop zero rm_stack s = none
  rmdir_loop (suc fuel) [] s = some (uv_ok tt, s)
  rmdir_loop (suc fuel) (d ∷ below) s = elim (readdir d s) [
    | uv_err e ↦ some (uv_err e, s)
    | uv_ok children ↦
        let (found, s') = delete_children children (d ∷ below) false s in
        elim found [
          | uv_err e ↦ some (uv_err e, s')
          | uv_ok (rm_stack, true) ↦ rmdir_loop fuel rm_stack s'
          | uv_ok (rm_stack, false) ↦
              let (result, s'') = rmdir d s' in
              elim (error_of result) [
                | none ↦ rmdir_loop fuel below s''
                | some e ↦ some (uv_err e, s'')
              ]
        ]
  ]

  unfoldable pub rmdir_recursive : ℕ → List ℕ → S → Option (UvResult (Unit {0}) × S)
  unfolding rmdir_loop
  rmdir_recursive fuel path s = rmdir_loop fuel (path ∷ []) s
