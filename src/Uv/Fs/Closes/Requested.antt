-- ===== src/Uv/Fs/Closes/Requested.antt =====
-- What single requests of librustuv/src/fs.rs open and ask to close.
use green_rs.Prelude.{
  ℕ, ◌≡◌, refl, Bool, true, false, inl, inr, Option, none, some, Bool-cases, Option-cases, arith, ℤ,
  is_negative,
}
use green_rs.Uv.Stream.{UvResult, uv_ok, uv_err}
use green_rs.Uv.Fs
use green_rs.Uv.Fs.Requests
use green_rs.Uv.Fs.Requests.{
  Request, FilePath, Answered, FileStat, io_stat, close_file, open_file, result, read, write,
}
use green_rs.Uv.Fs.Files
use green_rs.Uv.Fs.Files.{
  Constants, System, World, Run, returns, panics, out_of_fuel, M, with_loop, File, FileMode,
  FileAccess, open_flags, execute_in, execute, execute_nop, open_mode, drop_file, scope,
  request_nop, request_stat, read_at, bytes_read, ignore, keep, drop_after,
}
use green_rs.Uv.Fs.Closes.{
  opens, asks_close, nothing, held, held_by, After, bind-After, give_back-After, with_loop-After,
}

-- What a request that has been answered opens.
abbrev pub opened_by : Request → UvResult Answered → ℕ → ℕ
opened_by q (uv_ok a) d = opens d q (some a.result)
opened_by q (uv_err e) d = 0

-- A negative number is no descriptor.
opens-negative : (d : ℕ) (q : Request) (n : ℤ) → is_negative n ≡ true → opens d q (some n) ≡ 0
opens-negative d (open_file _ _ _) n h = ground (arith, h)
opens-negative d _ n h = refl

opens-none : (d : ℕ) (q : Request) → opens d q none ≡ 0
opens-none d (open_file _ _ _) = refl
opens-none d _ = refl

module _ {S : Type 0} (p : ℕ) (sys : System S) where
  abbrev returned : UvResult Answered × World S → Run S Answered
  returned (r, w) = returns r w

  pub execute-After :
      (busy : Bool) (q : Request) (w : World S)
      → w.local_loop ≡ some (p, busy)
      → After p busy (opened_by q) (λ d. asks_close d q) w (execute sys q w)
  unfolding execute execute_in result
  execute-After busy q w l = elim (Option-cases (sys.refuses q w.files)) [
    | inl e ↦ elim (Bool-cases (is_negative (sys.responds q w.files).0.result)) [
      | inl bad ↦
          rw (e, execute, execute_in)
            (rw (bad, result)
              (l, λ d. omega (arith, opens-negative d q (sys.responds q w.files).0.result bad)))
      | inr good ↦ rw (e, execute, execute_in) (rw (good, result) (l, λ d. omega arith))
    ]
    | inr (x, e) ↦ rw (e, execute, execute_in) (l, λ d. omega (arith, opens-none d q))
  ]

  -- A request that opens no file, and whatever its answer is taken for.
  module _ {A : Type 0} (busy : Bool) (q : Request)
      (plain : (d : ℕ) (n : ℤ) → opens d q (some n) ≡ 0) (k : Answered → M S A)
      (keeps : (a : Answered) (w : World S)
        → w.local_loop ≡ some (p, busy)
        → After p busy nothing (λ d. 0) w (k a w)) where
    none_opened :
        (a : Answered) (w : World S) (r : Run S A)
        → After p busy nothing (λ d. 0) w r
        → After p busy nothing (opened_by q (uv_ok a)) w r
    none_opened a w (returns r w') h = (h.0, λ d. omega (arith, h.1 d, plain d a.result))
    none_opened a w (panics f) h = h
    none_opened a w out_of_fuel h = tt

    pub plain-After :
        (w : World S)
        → w.local_loop ≡ some (p, busy)
        → After p busy nothing (λ d. asks_close d q) w (Files.and_then (execute sys q w) k)
    plain-After w l =
        bind-After p busy (opened_by q) nothing (λ e d. refl) (λ d. asks_close d q) w k
          (λ a w' l'. none_opened a w' (k a w') (keeps a w' l')) (execute sys q w)
          (execute-After busy q w l)

  pub execute_nop-After :
      (busy : Bool) (q : Request) (w : World S)
      → ((d : ℕ) (n : ℤ) → opens d q (some n) ≡ 0)
      → w.local_loop ≡ some (p, busy)
      → After p busy nothing (λ d. asks_close d q) w (execute_nop sys q w)
  unfolding execute_nop
  execute_nop-After busy q w plain l =
      plain-After busy q plain (λ _ w'. returns (uv_ok tt) w') (λ a w' l'. (l', λ d. omega arith)) w
        l

  module _ (c : Constants) (w : World S) (idle : w.local_loop ≡ some (p, false)) where
    abbrev lent : World S
    lent = record w { local_loop = some (p, true) }

    -- Such a request with the event loop borrowed for it.
    asked-After :
        {A : Type 0} (q : Request) (k : Answered → M S A)
        → ((d : ℕ) (n : ℤ) → opens d q (some n) ≡ 0)
        → ((a : Answered) (w : World S)
            → w.local_loop ≡ some (p, true)
            → After p true nothing (λ d. 0) w (k a w))
        → After p false nothing
            (λ d. asks_close d q)
            w
            (with_loop c.unknown (λ w'. Files.and_then (execute sys q w') k) w)
    asked-After q k plain keeps =
        with_loop-After p nothing (λ d. asks_close d q) w idle c.unknown
          (λ w'. Files.and_then (execute sys q w') k) (plain-After true q plain k keeps lent refl)

    pub request_nop-After :
        (q : Request)
        → ((d : ℕ) (n : ℤ) → opens d q (some n) ≡ 0)
        → After p false nothing (λ d. asks_close d q) w (request_nop sys c q w)
    unfolding request_nop execute_nop
    request_nop-After q plain =
        asked-After q (λ a w'. returns (uv_ok tt) w') plain (λ a w' l'. (l', λ d. omega arith))

    pub request_stat-After :
        (q : Request)
        → ((d : ℕ) (n : ℤ) → opens d q (some n) ≡ 0)
        → After p false nothing (λ d. asks_close d q) w (request_stat sys c q w)
    unfolding request_stat
    request_stat-After q plain =
        asked-After q (λ a w'. returns (uv_ok (io_stat c.modes a.stat)) w') plain
          (λ a w' l'. (l', λ d. omega arith))

    pub read_at-After :
        (f : File) (len : ℕ) (position : Option ℕ)
        → After p false nothing (λ d. 0) w (read_at sys c f len position w)
    unfolding read_at
    read_at-After f len position =
        asked-After (Requests.read f.fd len position)
          (λ a w'. returns (bytes_read sys c a (Fs.read_at c.eof (uv_ok a.result))) w')
          (λ d n. refl) (λ a w' l'. (l', λ d. omega arith))

    pub open_mode-After :
        (path : FilePath) (mode : FileMode) (access : FileAccess)
        → After p false held_by (λ d. 0) w (open_mode sys c path mode access w)
    unfolding open_mode
    open_mode-After path mode access =
        let q : Request =
          open_file path (open_flags c mode access).0 (open_flags c mode access).1 in
        let k : Answered → M S File =
          λ a w'. returns (uv_ok (record { fd = a.result; path = path })) w' in
        with_loop-After p held_by (λ d. 0) w idle c.unknown
          (λ w'. Files.and_then (execute sys q w') k)
          (bind-After p true (opened_by q) held_by (λ e d. refl) (λ d. 0) lent k
            (λ a w' l'. (l', λ d. omega arith)) (execute sys q lent)
            (execute-After true q lent refl))

  module _ (c : Constants) (f : File) where
    ignored :
        (w : World S) (r : Run S (Unit {0}))
        → After p true nothing (held f) w r
        → After p true nothing (held f) w (ignore sys c r)
    ignored w (returns r w') h = h
    ignored w (panics e) h = h
    ignored w out_of_fuel h = tt

    pub drop_file-After :
        (w : World S)
        → w.local_loop ≡ some (p, false)
        → After p false nothing (held f) w (drop_file sys c f w)
    unfolding drop_file
    drop_file-After w idle =
        let q : Request = close_file f.fd in
        let lent : World S = record w { local_loop = some (p, true) } in
        rw idle (
          give_back-After p nothing (held f) w idle (ignore sys c (execute_nop sys q lent)) (
            ignored lent (execute_nop sys q lent)
              (execute_nop-After true q lent (λ d n. refl) refl)))

    module _ {A : Type 0} (w : World S) where
      after_drop :
          (r : UvResult A) (w' : World S)
          → After p false nothing (λ d. 0) w (returns r w')
          → (dropped : Run S (Unit {0})) → After p false nothing (held f) w' dropped
          → After p false nothing (held f) w (keep sys c r dropped)
      after_drop r w' h (returns _ w'') h' = (h'.0, λ d. omega (arith, h.1 d, h'.1 d))
      after_drop r w' h (panics e) h' = h'
      after_drop r w' h out_of_fuel h' = tt

      pub scope-After :
          (m : Run S A)
          → After p false nothing (λ d. 0) w m
          → After p false nothing (held f) w (drop_after sys c f m)
      scope-After (returns r w') h =
          after_drop r w' h (drop_file sys c f w') (drop_file-After w' h.0)
      scope-After (panics e) h = h
      scope-After out_of_fuel h = tt
