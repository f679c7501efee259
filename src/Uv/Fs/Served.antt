-- ===== src/Uv/Fs/Served.antt =====
-- A file system that does what it is asked, as `copy` of librustuv/src/fs.rs uses it, and what single
-- requests to it come to.
pub mod Rounds
pub mod Content
use green_rs.Prelude.{
  ℕ, ◌+◌, ◌<◌, ◌≡◌, refl, ap, Bool, true, false, inl, inr, Option, none, some, List, [], ◌∷◌, ◌++◌,
  take, drop, length, Bool-cases, ℤ, pos, is_negative,
}
use green_rs.Uv.EventLoop.{borrow, drop_borrowed}
use green_rs.Uv.Stream.{UvResult, uv_ok, uv_err}
use green_rs.Uv.Fs.{FileType, type_file}
use green_rs.Uv.Fs.Requests
use green_rs.Uv.Fs.Requests.{FilePath, Request, Answered, FileStat, io_stat, result}
use green_rs.Uv.Fs.Copy.{buffer_size}
use green_rs.Uv.Fs.Files
use green_rs.Uv.Fs.Files.{
  Constants, System, World, Run, returns, M, with_loop, File, truncate, write, open_flags,
  execute_in, execute, execute_nop, drop_file,
}

-- The file system serves a copy: no request is refused at once; of the source, a regular file, its
-- reader has some bytes left, and a read gives the first of them; a write appends the first part of
-- its buffer to the destination, which an open for it empties; and each makes progress if there is any
-- to make. Closing changes nothing of this.
pub record Serves {S : Type 0} (sys : System S) (c : Constants) (from to : FilePath) : Type 0 where
  pub source : List ℕ
  pub mode : ℕ
  pub reader : ℕ
  pub writer : ℕ
  pub left : S → List ℕ
  pub written : S → List ℕ
  pub permissions : S → ℕ
  pub amount : S → ℕ
  pub accepted : List ℕ → S → ℕ
  pub accepts : (q : Request) (s : S) → sys.refuses q s ≡ none
  pub stats :
      (s : S)
      → let (a, s') = sys.responds (Requests.stat from) s in
        (a.result ≡ pos 0)
        × ((io_stat c.modes a.stat).kind ≡ type_file)
        × ((io_stat c.modes a.stat).perm ≡ mode)
        × (left s' ≡ left s)
        × (written s' ≡ written s)
  pub opens :
      (flags m : ℕ) (s : S)
      → let (a, s') = sys.responds (Requests.open_file from flags m) s in
        (a.result ≡ pos reader) × (left s' ≡ source)
  pub creates :
      (s : S)
      → let (flags, m) = open_flags c truncate write in
        let (a, s') = sys.responds (Requests.open_file to flags m) s in
        (a.result ≡ pos writer) × (left s' ≡ left s) × (written s' ≡ [])
  pub reads :
      (s : S)
      → let (a, s') = sys.responds (Requests.read (pos reader) buffer_size none) s in
        (a.result ≡ pos (amount s))
        × (take (amount s) a.bytes ≡ take (amount s) (left s))
        × (left s' ≡ drop (amount s) (left s))
        × (written s' ≡ written s)
  pub reads_some : (s : S) → 0 < length (left s) → 0 < amount s
  pub reads_none : (s : S) → left s ≡ [] → amount s ≡ 0
  pub writes :
      (buf : List ℕ) (s : S)
      → let (a, s') = sys.responds (Requests.write (pos writer) buf none) s in
        (a.result ≡ pos (accepted buf s))
        × (left s' ≡ left s)
        × (written s' ≡ written s ++ take (accepted buf s) buf)
  pub writes_some : (buf : List ℕ) (s : S) → 0 < length buf → 0 < accepted buf s
  pub chmods :
      (m : ℕ) (s : S)
      → let (a, s') = sys.responds (Requests.chmod to m) s in
        (a.result ≡ pos 0) × (written s' ≡ written s) × (permissions s' ≡ m)
  pub closes :
      (fd : ℤ) (s : S)
      → let (a, s') = sys.responds (Requests.close_file fd) s in
        (written s' ≡ written s) × (permissions s' ≡ permissions s)

module _ {S : Type 0} (p : ℕ) (sys : System S) (c : Constants)
    (accepts : (q : Request) (s : S) → sys.refuses q s ≡ none) where
  -- A run ends with a result, the event loop idle and the file system in a state.
  abbrev pub Ends : {A : Type 0} → Run S A → UvResult A → S → Type 0
  Ends r x s =
      (w' : World S) × (r ≡ returns x w') × (w'.local_loop ≡ some (p, false)) × (w'.files ≡ s)

  pub executed_in :
      (q : Request) (w : World S) (n : ℕ)
      → (sys.responds q w.files).0.result ≡ pos n
      → execute_in sys q w ≡ (
        uv_ok (sys.responds q w.files).0,
        record w {
          files = (sys.responds q w.files).1;
          made = (q, some (sys.responds q w.files).0.result) ∷ w.made;
        },
      )
  unfolding execute_in result
  executed_in q w n e =
      let sign : is_negative (sys.responds q w.files).0.result ≡ false = ap is_negative e in
      rw (accepts q w.files, execute_in) (rw (sign, result) refl)

  executed :
      (q : Request) (w : World S) (n : ℕ)
      → (sys.responds q w.files).0.result ≡ pos n
      → execute sys q w
        ≡ returns (uv_ok (sys.responds q w.files).0) (record w {
          files = (sys.responds q w.files).1;
          made = (q, some (sys.responds q w.files).0.result) ∷ w.made;
        })
  unfolding execute
  executed q w n e = rw (executed_in q w n e) refl

  pub asked-Ends :
      {A : Type 0} (q : Request) (f : Answered → UvResult A) (w : World S) (n : ℕ)
      → w.local_loop ≡ some (p, false)
      → (sys.responds q w.files).0.result ≡ pos n
      → Ends
          (with_loop c.unknown
            (λ w'. Files.and_then (execute sys q w') (λ a w'. returns (f a) w'))
            w)
          (f (sys.responds q w.files).0)
          (sys.responds q w.files).1
  unfolding with_loop
  asked-Ends q f w n idle e = (
    record w {
      local_loop = some (p, false);
      files = (sys.responds q w.files).1;
      made = (q, some (sys.responds q w.files).0.result) ∷ w.made;
    },
    rw idle (rw (executed q (record w { local_loop = some (p, true) }) n e) refl),
    refl,
    refl,
  )

  pub dropped-Ends :
      (f : File) (w : World S)
      → w.local_loop ≡ some (p, false)
      → Ends (drop_file sys c f w) (uv_ok tt) (sys.responds (Requests.close_file f.fd) w.files).1
  unfolding drop_file execute_nop execute execute_in result
  dropped-Ends f w idle =
      let q : Request = Requests.close_file f.fd in
      (
        record w {
          local_loop = some (p, false);
          files = (sys.responds (Requests.close_file f.fd) w.files).1;
          made =
              (
                Requests.close_file f.fd,
                some (sys.responds (Requests.close_file f.fd) w.files).0.result,
              )
              ∷ w.made;
        },
        rw idle (
            rw (accepts q w.files, execute_in)
              (elim (Bool-cases (is_negative (sys.responds q w.files).0.result)) [
                | inl bad ↦ rw (bad, result) refl
                | inr good ↦ rw (good, result) refl
              ])),
        refl,
        refl,
      )
