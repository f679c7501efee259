-- ===== src/Uv/Fs/Served/Content.antt =====
-- What `copy` of librustuv/src/fs.rs has copied.
use green_rs.Prelude.{ℕ, ◌<◌, ◌≡◌, ap, ◌∙◌, [], ◌++◌, length, false, some, arith}
use green_rs.Uv.Stream.{uv_ok}
use green_rs.Uv.Fs.Requests
use green_rs.Uv.Fs.Requests.{FilePath, FileStat, io_stat}
use green_rs.Uv.Fs.Files
use green_rs.Uv.Fs.Files.{
  Constants, System, World, Run, returns, M, ◌>>=◌, File, truncate, write, open_existing, read,
  open_flags, open_mode, drop_file, drop_after, keep, scope, open_read, create, request_nop,
  request_stat,
}
use green_rs.Uv.Fs.Operations.{stat, chmod}
use green_rs.Uv.Fs.Copy.{check_kind, copy_into, copy_from, copy}
use green_rs.Uv.Fs.Served.{Serves, Ends, asked-Ends, dropped-Ends}
use green_rs.Uv.Fs.Served.Rounds.{reading, writing, copy_loop-Copies}

module _ {S : Type 0} (p : ℕ) (sys : System S) (c : Constants) (from to : FilePath)
    (fs : Serves sys c from to) where
  open fs use {source, mode, reader, writer, left, written, permissions}

  -- A run has returned, with the event loop idle, and the destination is a copy of the source.
  abbrev pub Copied : Run S (Unit {0}) → Type 0
  Copied r =
      (w' : World S) × (r ≡ returns (uv_ok tt) w')
      × (w'.local_loop ≡ some (p, false))
      × (written w'.files ≡ source)
      × (permissions w'.files ≡ mode)

  scope-Copied :
      (f : File) (m : M S (Unit {0})) (w : World S) → Copied (m w) → Copied (scope sys c f m w)
  unfolding scope
  scope-Copied f m w (w1, e1, idle1, content, perm) =
      let (w2, e2, idle2, files2) = dropped-Ends p sys c fs.accepts f w1 idle1 in
      let (same, same_perm) = fs.closes f.fd w1.files in
      (
        w2,
        ap (drop_after sys c f) e1 ∙ ap (keep sys c (uv_ok tt)) e2,
        idle2,
        ap written files2 ∙ same ∙ content,
        ap permissions files2 ∙ same_perm ∙ perm,
      )

  stat-Ends :
      (w : World S)
      → w.local_loop ≡ some (p, false)
      → let (a, s') = sys.responds (Requests.stat from) w.files in
        Ends p sys c fs.accepts (stat sys c from w) (uv_ok (io_stat c.modes a.stat)) s'
  unfolding stat request_stat
  stat-Ends w idle =
      asked-Ends p sys c fs.accepts (Requests.stat from) (λ a. uv_ok (io_stat c.modes a.stat)) w 0
        idle (fs.stats w.files).0

  chmod-Ends :
      (m : ℕ) (w : World S)
      → w.local_loop ≡ some (p, false)
      → Ends p sys c fs.accepts
          (chmod sys c to m w)
          (uv_ok tt)
          (sys.responds (Requests.chmod to m) w.files).1
  unfolding chmod request_nop Files.execute_nop
  chmod-Ends m w idle =
      asked-Ends p sys c fs.accepts (Requests.chmod to m) (λ a. uv_ok tt) w 0 idle
        (fs.chmods m w.files).0

  open_read-Ends :
      (w : World S)
      → w.local_loop ≡ some (p, false)
      → let (flags, m) = open_flags c open_existing read in
        Ends p sys c fs.accepts
          (open_read sys c from w)
          (uv_ok (reading p sys c from to fs))
          (sys.responds (Requests.open_file from flags m) w.files).1
  unfolding open_read open_mode
  open_read-Ends w idle =
      let (flags, m) = open_flags c open_existing read in
      let (w1, e1, idle1, files1) =
        asked-Ends p sys c fs.accepts (Requests.open_file from flags m)
          (λ a. uv_ok (record { fd = a.result; path = from })) w reader idle
          (fs.opens flags m w.files).0 in
      (
        w1,
        e1
            ∙ ap (λ fd. returns (uv_ok (record { fd = fd; path = from })) w1)
                (fs.opens flags m w.files).0,
        idle1,
        files1,
      )

  create-Ends :
      (w : World S)
      → w.local_loop ≡ some (p, false)
      → let (flags, m) = open_flags c truncate write in
        Ends p sys c fs.accepts
          (create sys c to w)
          (uv_ok (writing p sys c from to fs))
          (sys.responds (Requests.open_file to flags m) w.files).1
  unfolding create open_mode
  create-Ends w idle =
      let (flags, m) = open_flags c truncate write in
      let (w1, e1, idle1, files1) =
        asked-Ends p sys c fs.accepts (Requests.open_file to flags m)
          (λ a. uv_ok (record { fd = a.result; path = to })) w writer idle (fs.creates w.files).0 in
      (
        w1,
        e1 ∙ ap (λ fd. returns (uv_ok (record { fd = fd; path = to })) w1) (fs.creates w.files).0,
        idle1,
        files1,
      )

  module _ (rounds fuel : ℕ) (round_enough : length source < rounds)
      (enough : length source < fuel) where
    abbrev source_file : File
    source_file = reading p sys c from to fs

    abbrev new_file : File
    new_file = writing p sys c from to fs

    copy_into-Copied :
        (w : World S)
        → w.local_loop ≡ some (p, false)
        → left w.files ≡ source
        → written w.files ≡ []
        → Copied (copy_into sys c rounds fuel from to source_file new_file w)
    copy_into-Copied w idle whole empty =
        let size : length (left w.files) ≡ length source = ap length whole in
        let (w1, e1, idle1, content) =
          copy_loop-Copies p sys c from to fs rounds fuel w idle (omega (arith, size, round_enough))
            (omega (arith, size, enough)) in
        let (w2, e2, idle2, files2) = stat-Ends w1 idle1 in
        let (answer, kind, perm, same_left, same) = fs.stats w1.files in
        let found : FileStat =
          io_stat c.modes (sys.responds (Requests.stat from) w1.files).0.stat in
        let (w3, e3, idle3, files3) = chmod-Ends found.perm w2 idle2 in
        let (answer', same', perm') = fs.chmods found.perm w2.files in
        (
          w3,
          ap (λ r. Files.and_then r (λ _. stat sys c from >>= λ s. chmod sys c to s.perm)) e1
              ∙ ap (λ r. Files.and_then r (λ s. chmod sys c to s.perm)) e2
              ∙ e3,
          idle3,
          ap written files3
              ∙ same'
              ∙ ap written files2
              ∙ same
              ∙ content
              ∙ ap (λ l. l ++ left w.files) empty
              ∙ whole,
          ap permissions files3 ∙ perm' ∙ perm,
        )

    copy_from-Copied :
        (w : World S)
        → w.local_loop ≡ some (p, false)
        → left w.files ≡ source
        → Copied (copy_from sys c rounds fuel from to source_file w)
    copy_from-Copied w idle whole =
        let (w1, e1, idle1, files1) = create-Ends w idle in
        let (answer, same, empty) = fs.creates w.files in
        let body = copy_into sys c rounds fuel from to source_file in
        let (w2, e2, idle2, content, perm) =
          scope-Copied new_file (body new_file) w1 (
            copy_into-Copied w1 idle1 (ap left files1 ∙ same ∙ whole)
              (ap written files1 ∙ empty)) in
        (w2, ap (λ r. Files.and_then r (λ f. scope sys c f (body f))) e1 ∙ e2, idle2, content, perm)

    pub copy-Copied :
        (w : World S) → w.local_loop ≡ some (p, false) → Copied (copy sys c rounds fuel from to w)
    unfolding copy
    copy-Copied w idle =
        let (w1, e1, idle1, files1) = stat-Ends w idle in
        let (answer, kind, perm, same_left, same) = fs.stats w.files in
        let found : FileStat = io_stat c.modes (sys.responds (Requests.stat from) w.files).0.stat in
        let (w2, e2, idle2, files2) = open_read-Ends w1 idle1 in
        let (flags, m) = open_flags c open_existing read in
        let whole : left w2.files ≡ source = ap left files2 ∙ (fs.opens flags m w1.files).1 in
        let body = copy_from sys c rounds fuel from to in
        let (w3, e3, idle3, content, perm3) =
          scope-Copied source_file (body source_file) w2 (copy_from-Copied w2 idle2 whole) in
        let opening : M S (Unit {0}) = open_read sys c from >>= λ f. scope sys c f (body f) in
        (
          w3,
          ap (λ r. Files.and_then r (λ s. check_kind sys c s.kind >>= λ _. opening)) e1
              ∙ ap (λ k. Files.and_then (check_kind sys c k w1) (λ _. opening)) kind
              ∙ ap (λ r. Files.and_then r (λ f. scope sys c f (body f))) e2
              ∙ e3,
          idle3,
          content,
          perm3,
        )
