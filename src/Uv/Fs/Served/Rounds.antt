-- ===== src/Uv/Fs/Served/Rounds.antt =====
-- The rounds of `copy` of librustuv/src/fs.rs over a file system that serves them.
use mathlib.Core.Path.{subst}
use mathlib.Core.List.{append_assoc, append-nil}
use green_rs.Prelude.{
  ℕ, zero, suc, ◌<◌, ◌≡◌, refl, sym, ap, ◌∙◌, Bool, true, false, Option, none, some, List, [], ◌∷◌,
  ◌++◌, take, drop, length, take-drop, length-drop, arith, ℤ, pos, negsuc, magnitude, ◌==ℤ◌, ◌==◌,
  ◌-◌, length-append, if◌then◌else◌,
}
use green_rs.Uv.Stream.{UvResult, uv_ok, uv_err}
use green_rs.Uv.Fs
use green_rs.Uv.Fs.Requests
use green_rs.Uv.Fs.Requests.{FilePath, Request, Answered, FileStat, io_stat}
use green_rs.Uv.Fs.Files
use green_rs.Uv.Fs.Files.{
  Constants, System, World, Run, returns, M, with_loop, File, execute_in, write_request, ended,
  write_at, read_at, bytes_read,
}
use green_rs.Uv.Fs.Copy.{buffer_size, copy_chunk, copy_loop}
use green_rs.Uv.Fs.Writes.{write_at-content, Left, write_from-Left}
use green_rs.Uv.Fs.Served.{Serves, Ends, executed_in, asked-Ends}

module _ {S : Type 0} (p : ℕ) (sys : System S) (c : Constants) (from to : FilePath)
    (fs : Serves sys c from to) where
  open fs use {reader, writer, left, written, amount, accepted}

  abbrev pub reading : File
  reading = record { fd = pos reader; path = from }

  abbrev pub writing : File
  writing = record { fd = pos writer; path = to }

  abbrev write : Option ℕ → List ℕ → World S → UvResult ℕ × World S
  write = write_request sys c writing

  write_lem : (xs : List ℕ) (w : World S) → (write none xs w).0 ≡ uv_ok (accepted xs w.files)
  unfolding write_request
  write_lem xs w =
      let q : Request = Requests.write (pos writer) xs none in
      let e : (sys.responds q w.files).0.result ≡ pos (accepted xs w.files) =
        (fs.writes xs w.files).0 in
      rw (executed_in p sys c fs.accepts q w (accepted xs w.files) e, write_request)
        (ap (λ n. uv_ok (magnitude n)) e)

  -- What a request to write leaves of the world.
  write-files :
      (xs : List ℕ) (w : World S)
      → ((write none xs w).1.files ≡ (sys.responds (Requests.write (pos writer) xs none) w.files).1)
        × ((write none xs w).1.local_loop ≡ w.local_loop)
  unfolding write_request
  write-files xs w =
      let q : Request = Requests.write (pos writer) xs none in
      let e = executed_in p sys c fs.accepts q w (accepted xs w.files) (fs.writes xs w.files).0 in
      (rw (e, write_request) refl, rw (e, write_request) refl)

  -- A chunk is added to what has been written.
  write_at-Ends :
      (rounds : ℕ) (buf : List ℕ) (w : World S)
      → length buf < rounds
      → w.local_loop ≡ some (p, false)
      → (w' : World S) × (write_at sys c rounds writing buf none w ≡ returns (uv_ok tt) w')
        × (w'.local_loop ≡ some (p, false))
        × (left w'.files ≡ left w.files)
        × (written w'.files ≡ written w.files ++ buf)
  unfolding write_at with_loop Fs.write_at
  write_at-Ends rounds buf w short idle =
      let lent : World S = record w { local_loop = some (p, true) } in
      let (t, same, content) =
        write_at-content write (λ v. written v.files) (λ xs v. accepted xs v.files) write_lem
          (λ xs v. fs.writes_some xs v.files)
          (λ xs v. ap written (write-files xs v).0 ∙ (fs.writes xs v.files).2) rounds buf lent
          short in
      let kept =
        subst (Left write (λ v. (v.local_loop ≡ some (p, true)) × (left v.files ≡ left w.files)))
          same
          (write_from-Left write
            (λ v. (v.local_loop ≡ some (p, true)) × (left v.files ≡ left w.files))
            (λ xs v h. (
              (write-files xs v).1 ∙ h.0,
              ap left (write-files xs v).0 ∙ (fs.writes xs v.files).1 ∙ h.1,
            ))
            rounds buf 0 lent (refl, refl)) in
      (
        record t { local_loop = some (p, false) },
        rw idle (rw same (rw (kept.0, Files.give_back) refl)),
        refl,
        kept.1,
        content,
      )

  ==ℤ-refl : (n : ℤ) → (n ==ℤ n) ≡ true
  ==ℤ-refl (pos n) = ground arith
  ==ℤ-refl (negsuc n) = ground arith

  none_left : (xs : List ℕ) → ¬ (0 < length xs) → xs ≡ []
  none_left [] h = refl
  none_left (x ∷ xs) h = absurd (h (omega arith))

  some_left : (xs : List ℕ) → ¬ (xs ≡ []) → 0 < length xs
  some_left [] h = absurd (h refl)
  some_left (x ∷ xs) h = omega arith

  -- What a read comes to.
  bytes_read-zero :
      (a : Answered)
      → a.result ≡ pos 0
      → bytes_read sys c a (Fs.read_at c.eof (uv_ok a.result)) ≡ uv_err c.eof
  unfolding Fs.read_at
  bytes_read-zero a e = ap (λ n. bytes_read sys c a (Fs.read_at c.eof (uv_ok n))) e

  bytes_read-suc :
      (a : Answered) (n : ℕ)
      → a.result ≡ pos (suc n)
      → bytes_read sys c a (Fs.read_at c.eof (uv_ok a.result)) ≡ uv_ok (take (suc n) a.bytes)
  unfolding Fs.read_at
  bytes_read-suc a n e =
      ap (λ m. bytes_read sys c a (Fs.read_at c.eof (uv_ok m))) e
      ∙ ap (λ (b : Bool). bytes_read sys c a (if b then uv_err c.eof else uv_ok (suc n)))
          (let test : (suc n == 0) ≡ false = ground arith in test)

  read_at-Ends :
      (w : World S)
      → w.local_loop ≡ some (p, false)
      → let (a, s') = sys.responds (Requests.read (pos reader) buffer_size none) w.files in
        Ends p sys c fs.accepts
          (read_at sys c reading buffer_size none w)
          (bytes_read sys c a (Fs.read_at c.eof (uv_ok a.result)))
          s'
  unfolding read_at
  read_at-Ends w idle =
      asked-Ends p sys c fs.accepts (Requests.read (pos reader) buffer_size none)
        (λ a. bytes_read sys c a (Fs.read_at c.eof (uv_ok a.result))) w (amount w.files) idle
        (fs.reads w.files).0

  -- The loop adds what is left of the source.
  abbrev pub Copies : Run S (Unit {0}) → World S → Type 0
  Copies r w =
      (w' : World S) × (r ≡ returns (uv_ok tt) w')
      × (w'.local_loop ≡ some (p, false))
      × (written w'.files ≡ written w.files ++ left w.files)

  -- A round that has read nothing is the last one.
  module _ (rounds : ℕ) (rest : M S (Unit {0})) (w w1 : World S) (r : Run S (List ℕ))
      (idle1 : w1.local_loop ≡ some (p, false)) where
    last_round :
        r ≡ returns (uv_err c.eof) w1
        → left w.files ≡ []
        → written w1.files ≡ written w.files
        → Copies (copy_chunk sys c rounds writing rest r) w
    last_round e none_left same = (
      w1,
      ap (copy_chunk sys c rounds writing rest) e ∙ rw (==ℤ-refl c.eof) refl,
      idle1,
      same ∙ sym (append-nil (written w.files)) ∙ ap (λ l. written w.files ++ l) (sym none_left),
    )

    -- Any other round leaves the rest to the next ones.
    next_round :
        (n : ℕ)
        → r ≡ returns (uv_ok (take n (left w.files))) w1
        → left w1.files ≡ drop n (left w.files)
        → written w1.files ≡ written w.files
        → length (left w.files) < rounds
        → ((w2 : World S)
            → w2.local_loop ≡ some (p, false)
            → left w2.files ≡ drop n (left w.files)
            → Copies (rest w2) w2)
        → Copies (copy_chunk sys c rounds writing rest r) w
    next_round n e dropped same short later =
        let xs : List ℕ = left w.files in
        let bound : length (take n xs) < rounds =
          omega (arith, ap length (take-drop n xs), length-append (take n xs) (drop n xs), short) in
        let (w2, e2, idle2, left2, written2) = write_at-Ends rounds (take n xs) w1 bound idle1 in
        let (w3, e3, idle3, written3) = later w2 idle2 (left2 ∙ dropped) in
        (
          w3,
          ap (copy_chunk sys c rounds writing rest) e
              ∙ ap (λ m. Files.and_then m (λ _. rest)) e2
              ∙ e3,
          idle3,
          written3
              ∙ ap (λ l. l ++ left w2.files) (written2 ∙ ap (λ l. l ++ take n xs) same)
              ∙ ap (λ l. (written w.files ++ take n xs) ++ l) (left2 ∙ dropped)
              ∙ append_assoc (written w.files) (take n xs) (drop n xs)
              ∙ ap (λ l. written w.files ++ l) (take-drop n xs),
        )

  module _ (rounds : ℕ) where
    pub copy_loop-Copies :
        (fuel : ℕ) (w : World S)
        → w.local_loop ≡ some (p, false)
        → length (left w.files) < rounds
        → length (left w.files) < fuel
        → Copies (copy_loop sys c rounds fuel reading writing w) w
    unfolding copy_loop
    copy_loop-Copies zero w idle short enough = absurd (omega (arith, enough))
    copy_loop-Copies (suc fuel) w idle short enough =
        by_amount (copy_loop-Copies fuel) (amount w.files) refl
      where
        q : Request
        q = Requests.read (pos reader) buffer_size none

        by_amount :
            ((w' : World S)
              → w'.local_loop ≡ some (p, false)
              → length (left w'.files) < rounds
              → length (left w'.files) < fuel
              → Copies (copy_loop sys c rounds fuel reading writing w') w')
            → (n : ℕ) → amount w.files ≡ n
            → Copies (copy_loop sys c rounds (suc fuel) reading writing w) w
        by_amount later zero e =
            let (w1, e1, idle1, files1) = read_at-Ends w idle in
            let (result, bytes, left1, written1) = fs.reads w.files in
            last_round rounds (copy_loop sys c rounds fuel reading writing) w w1
              (read_at sys c reading buffer_size none w) idle1
              (e1
                ∙ ap (λ x. returns x w1)
                    (bytes_read-zero (sys.responds q w.files).0 (result ∙ ap pos e)))
              (none_left (left w.files) (λ more. omega (arith, fs.reads_some w.files more, e)))
              (ap written files1 ∙ written1)
        by_amount later (suc n) e =
            let (w1, e1, idle1, files1) = read_at-Ends w idle in
            let (result, bytes, left1, written1) = fs.reads w.files in
            next_round rounds (copy_loop sys c rounds fuel reading writing) w w1
              (read_at sys c reading buffer_size none w) idle1 (suc n)
              (e1
                ∙ ap (λ x. returns x w1)
                    (bytes_read-suc (sys.responds q w.files).0 n (result ∙ ap pos e)
                      ∙ ap uv_ok (
                          ap (λ m. take m (sys.responds q w.files).0.bytes) (sym e)
                          ∙ bytes
                          ∙ ap (λ m. take m (left w.files)) e)))
              (ap left files1 ∙ left1 ∙ ap (λ m. drop m (left w.files)) e)
              (ap written files1 ∙ written1) short
              (λ w2 idle2 left2.
                let shorter : length (left w2.files) ≡ length (left w.files) - suc n =
                  ap length left2 ∙ length-drop (suc n) (left w.files) in
                let more : 0 < length (left w.files) =
                  some_left (left w.files)
                    (λ empty. omega (arith, fs.reads_none w.files empty, e)) in
                later w2 idle2 (omega (arith, shorter, short))
                  (omega (arith, shorter, enough, more)))
