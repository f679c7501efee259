-- ===== src/Examples/Copies.antt =====
-- `copy` on a file system with a file to read and one to write.
use green_rs.Prelude.{
  ℕ, ◌<◌, refl, none, some, List, [], ◌∷◌, ◌++◌, length, take, drop, ◌==◌, arith, pos, false,
  if◌then◌else◌,
}
use green_rs.Uv.Fs.Requests
use green_rs.Uv.Fs.Requests.{Request, Answered, io_stat}
use green_rs.Uv.Fs.Files.{System, World}
use green_rs.Uv.Fs.Copy.{copy}
use green_rs.Uv.Fs.Served.{Serves}
use green_rs.Uv.Fs.Served.Content.{Copied, copy-Copied}
use green_rs.Examples.Files.{two_at_most, says, constants}

-- What is left for its reader of a file whose path has one byte, and the other file with its permissions.
-- A request reads or writes at most two bytes.
record Disk : Type 0 where
  left : List ℕ
  written : List ℕ
  permissions : ℕ

abbrev whole : List ℕ
whole = 1 ∷ 2 ∷ 3 ∷ 4 ∷ 5 ∷ []

abbrev responds : Request → Disk → Answered × Disk
responds (Request.open_file path _ _) s =
    if length path == 1
    then (says (pos 3) [], record s { left = whole })
    else (says (pos 4) [], record s { written = [] })
responds (Request.read _ _ _) s =
    let n = two_at_most s.left [] in (says (pos n) s.left, record s { left = drop n s.left })
responds (Request.write _ buf _) s =
    let n = two_at_most buf [] in (says (pos n) [], record s { written = s.written ++ take n buf })
responds (Request.chmod _ mode) s = (says (pos 0) [], record s { permissions = mode })
responds _ s = (says (pos 0) [], s)

abbrev disk : System Disk
disk = record { refuses = λ q s. none; responds = responds }

two_at_most-some : (xs : List ℕ) → 0 < length xs → 0 < two_at_most xs []
two_at_most-some xs h = ground (arith, h)

abbrev disk_serves : Serves disk constants (8 ∷ []) (8 ∷ 9 ∷ [])
unfolding io_stat Requests.kind_of
disk_serves = record {
  source = whole;
  mode = 420;
  reader = 3;
  writer = 4;
  left = λ s. s.left;
  written = λ s. s.written;
  permissions = λ s. s.permissions;
  amount = λ s. two_at_most s.left [];
  accepted = λ buf s. two_at_most buf [];
  accepts = λ q s. refl;
  stats = λ s. (refl, refl, refl, refl, refl);
  opens = λ flags m s. (refl, refl);
  creates = λ s. (refl, refl, refl);
  reads = λ s. (refl, refl, refl, refl);
  reads_some = λ s h. two_at_most-some s.left h;
  reads_none = λ s e. rw e refl;
  writes = λ buf s. (refl, refl, refl);
  writes_some = λ buf s h. two_at_most-some buf h;
  chmods = λ m s. (refl, refl, refl);
  closes = λ fd s. (refl, refl);
}

abbrev before : World Disk
before = record {
  files = record { left = []; written = 7 ∷ 7 ∷ []; permissions = 0 };
  local_loop = some (77, false);
  made = [];
}

copy-Copied_example :
    Copied 77 disk constants
      (8 ∷ [])
      (8 ∷ 9 ∷ [])
      disk_serves
      (copy disk constants 6 6 (8 ∷ []) (8 ∷ 9 ∷ []) before)
unfolding disk_serves
copy-Copied_example =
    copy-Copied 77 disk constants (8 ∷ []) (8 ∷ 9 ∷ []) disk_serves 6 6 (omega arith) (omega arith)
      before refl
