-- ===== src/Uv/Fs/Closes.antt =====
-- Which descriptors a run over librustuv/src/fs.rs has opened, and asked to close: the drop of a file
-- ignores whether its request succeeds.
pub mod Requested
pub mod Copies
use green_rs.Prelude.{
  ℕ, zero, suc, ◌+◌, ◌≡◌, refl, Bool, true, false, inl, inr, Option, none, some, List, [], ◌∷◌,
  if◌then◌else◌, Bool-cases, Option-cases, arith, ℤ, pos, is_negative, ◌==ℤ◌,
}
use green_rs.Uv.EventLoop.{borrow, drop_borrowed}
use green_rs.Uv.Stream.{UvResult, uv_ok, uv_err}
use green_rs.Uv.Fs.Files
use green_rs.Uv.Fs.Requests.{Request, close_file, open_file, Answered, result}
use green_rs.Uv.Fs.Files.{
  Constants, System, World, Run, returns, panics, out_of_fuel, M, ◌>>=◌, with_loop, File,
  execute_in, execute, execute_nop, drop_file, scope,
}

-- What a request and its result open of a descriptor, and what a request asks to close of it.
abbrev pub opens : ℕ → Request → Option ℤ → ℕ
opens d (open_file _ _ _) (some n) = if n ==ℤ pos d then 1 else 0
opens d _ _ = 0

abbrev pub asks_close : ℕ → Request → ℕ
asks_close d (close_file fd) = if fd ==ℤ pos d then 1 else 0
asks_close d _ = 0

abbrev pub opened : ℕ → List (Request × Option ℤ) → ℕ
opened d [] = 0
opened d ((q, o) ∷ made) = opens d q o + opened d made

abbrev pub asked_close : ℕ → List (Request × Option ℤ) → ℕ
asked_close d [] = 0
asked_close d ((q, o) ∷ made) = asks_close d q + asked_close d made

-- What a result holds of a descriptor.
abbrev pub nothing : {A : Type 0} → UvResult A → ℕ → ℕ
nothing r d = 0

abbrev pub held : File → ℕ → ℕ
held f d = if f.fd ==ℤ pos d then 1 else 0

abbrev pub held_by : UvResult File → ℕ → ℕ
held_by (uv_ok f) = held f
held_by (uv_err e) = λ d. 0

module _ {S : Type 0} (p : ℕ) where
  -- A run does not panic, and when it returns the event loop is borrowed or not, as given, and of each
  -- descriptor the result holds as much more than before as has been opened and not asked to be closed.
  abbrev pub After :
      {A : Type 0} → Bool → (UvResult A → ℕ → ℕ) → (ℕ → ℕ) → World S → Run S A → Type 0
  After busy now before w (returns r w') =
      (w'.local_loop ≡ some (p, busy))
      × ((d : ℕ)
          → opened d w'.made + asked_close d w.made + before d
            ≡ asked_close d w'.made + opened d w.made + now r d)
  After busy now before w (panics f) = ⊥
  After busy now before w out_of_fuel = Unit

  module _ {A B : Type 0} (busy : Bool) (now : UvResult A → ℕ → ℕ) (now' : UvResult B → ℕ → ℕ)
      (same : (e : ℤ) (d : ℕ) → now (uv_err e) d ≡ now' (uv_err e) d) (before : ℕ → ℕ) (w : World S)
      (k : A → M S B)
      (next : (a : A) (w' : World S)
        → w'.local_loop ≡ some (p, busy)
        → After busy now' (now (uv_ok a)) w' (k a w')) where
    after_next :
        (a : A) (w' : World S)
        → After busy now before w (returns (uv_ok a) w')
        → (r : Run S B) → After busy now' (now (uv_ok a)) w' r
        → After busy now' before w r
    after_next a w' h (returns r w'') h' = (h'.0, λ d. omega (arith, h.1 d, h'.1 d))
    after_next a w' h (panics f) h' = h'
    after_next a w' h out_of_fuel h' = tt

    pub bind-After :
        (m : Run S A) → After busy now before w m → After busy now' before w (Files.and_then m k)
    bind-After (returns (uv_ok a) w') h = after_next a w' h (k a w') (next a w' h.0)
    bind-After (returns (uv_err e) w') h = (h.0, λ d. omega (arith, h.1 d, same e d))
    bind-After (panics f) h = absurd h
    bind-After out_of_fuel h = tt

  module _ {A : Type 0} (now : UvResult A → ℕ → ℕ) (before : ℕ → ℕ) (w : World S)
      (idle : w.local_loop ≡ some (p, false)) where
    pub give_back-After :
        (r : Run S A)
        → After true now before (record w { local_loop = some (p, true) }) r
        → After false now before w (Files.give_back p r)
    unfolding drop_borrowed
    give_back-After (returns r w') h = rw h.0 (refl, h.1)
    give_back-After (panics f) h = h
    give_back-After out_of_fuel h = tt

    pub with_loop-After :
        (unknown : ℤ) (body : M S A)
        → After true now before
            (record w { local_loop = some (p, true) })
            (body (record w { local_loop = some (p, true) }))
        → After false now before w (with_loop unknown body w)
    unfolding with_loop
    with_loop-After unknown body h = rw idle (give_back-After (body _) h)
