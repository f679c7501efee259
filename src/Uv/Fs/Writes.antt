-- ===== src/Uv/Fs/Writes.antt =====
-- The loop of `write_at` of librustuv/src/fs.rs over partial writes.
use green_rs.Prelude.{
  ℕ, zero, suc, ◌+◌, ◌-◌, ◌≤◌, ◌<◌, ◌≡◌, refl, sym, ap, ◌∙◌, Bool, true, false, Option, none, some,
  List, [], ◌∷◌, ◌++◌, length, drop, take, take-drop, drop-add, length-drop, ltb, arith, Bool-cases,
  ◌⊎◌, inl, inr,
}
use mathlib.Core.List.{append_assoc, append-nil}
use green_rs.Uv.Stream.{UvResult, uv_ok, uv_err}
use green_rs.Uv.Fs.{write_from, write_at}

-- A request to write at the current position adds the first part of the buffer to a file: at least one
-- byte of it, if it has any.
module _ {ℓ κ} {S : Type ℓ} {A : Type κ} (request : Option ℕ → List A → S → UvResult ℕ × S)
    (content : S → List A) (accepted : List A → S → ℕ)
    (answers : (xs : List A) (s : S) → (request none xs s).0 ≡ uv_ok (accepted xs s))
    (some_of : (xs : List A) (s : S) → 0 < length xs → 0 < accepted xs s)
    (adds : (xs : List A) (s : S)
      → content (request none xs s).1 ≡ content s ++ take (accepted xs s) xs) where
  drop-all : (n : ℕ) (xs : List A) → length xs ≤ n → drop n xs ≡ []
  drop-all n [] h = refl
  drop-all zero (x ∷ xs) h = absurd (omega (arith, h))
  drop-all (suc n) (x ∷ xs) h = drop-all n xs (omega (arith, h))

  write_from-content :
      (fuel : ℕ) (buf : List A) (amt : ℕ) (s : S)
      → length buf - amt < fuel
      → (s' : S) × (write_from request fuel none buf amt s ≡ some (uv_ok tt, s'))
        × (content s' ≡ content s ++ drop amt buf)
  unfolding write_from
  write_from-content zero buf amt s enough = absurd (omega (arith, enough))
  write_from-content (suc fuel) buf amt s enough =
      by_test (write_from-content fuel buf (amt + n) s') (ltb amt (length buf)) refl
    where
      left : List A
      left = drop amt buf

      n : ℕ
      n = accepted left s

      s' : S
      s' = (request none left s).1

      by_test :
          (length buf - (amt + n) < fuel
            → (t : S) × (write_from request fuel none buf (amt + n) s' ≡ some (uv_ok tt, t))
              × (content t ≡ content s' ++ drop (amt + n) buf))
          → (b : Bool) → ltb amt (length buf) ≡ b
          → (t : S) × (write_from request (suc fuel) none buf amt s ≡ some (uv_ok tt, t))
            × (content t ≡ content s ++ drop amt buf)
      by_test later false e = (
        s,
        rw (write_from, e) refl,
        rw (drop-all amt buf (ground (arith, e)), append-nil (content s)) refl,
      )
      by_test later true e =
          let first : amt < length buf = ground (arith, e) in
          let progress : 0 < n = some_of left s (omega (arith, length-drop amt buf, first)) in
          let (t, same, written) = later (omega (arith, first, progress, enough)) in
          (
            t,
            rw (write_from, e, answers left s) same,
            written
                ∙ ap (λ l. l ++ drop (amt + n) buf) (adds left s)
                ∙ append_assoc (content s) (take n left) (drop (amt + n) buf)
                ∙ ap (λ l. content s ++ l)
                    (ap (λ l. take n left ++ l) (sym (drop-add n amt buf)) ∙ take-drop n left),
          )

  -- `write_at` returns after at most as many rounds as there are bytes, and one, and has then added the
  -- whole buffer to the file.
  pub write_at-content :
      (fuel : ℕ) (buf : List A) (s : S)
      → length buf < fuel
      → (s' : S) × (write_at request fuel none buf s ≡ some (uv_ok tt, s'))
        × (content s' ≡ content s ++ buf)
  unfolding write_at
  write_at-content fuel buf s enough =
      let (t, same, written) = write_from-content fuel buf 0 s (omega (arith, enough)) in
      (t, same, written ∙ ap (λ l. content s ++ l) (drop_nothing buf))
    where
      drop_nothing : (xs : List A) → drop 0 xs ≡ xs
      drop_nothing [] = refl
      drop_nothing (x ∷ xs) = refl

module _ {ℓ κ μ} {S : Type ℓ} {A : Type κ} (request : Option ℕ → List A → S → UvResult ℕ × S)
    (P : S → Type μ) where
  -- A property of the state when a loop has ended.
  abbrev pub Left : Option (UvResult (Unit {0}) × S) → Type μ
  Left none = Unit
  Left (some (r, s)) = P s

  -- What each request keeps, the loop keeps.
  pub write_from-Left :
      ((xs : List A) (s : S) → P s → P (request none xs s).1)
      → (fuel : ℕ) (buf : List A) (amt : ℕ) (s : S) → P s
      → Left (write_from request fuel none buf amt s)
  unfolding write_from
  write_from-Left keeps zero buf amt s h = tt
  write_from-Left keeps (suc fuel) buf amt s h =
      by_test (Bool-cases (ltb amt (length buf)))
        (λ n s' h'. write_from-Left keeps fuel buf (amt + n) s' h')
    where
      left : List A
      left = drop amt buf

      by_answer :
          ((n : ℕ) (s' : S) → P s' → Left (write_from request fuel none buf (amt + n) s'))
          → (r : UvResult ℕ) (s' : S) → P s'
          → Left (elim r [
            | uv_ok n ↦ write_from request fuel none buf (amt + n) s'
            | uv_err e ↦ some (uv_err e, s')
          ])
      by_answer later (uv_ok n) s' h' = later n s' h'
      by_answer later (uv_err e) s' h' = h'

      by_test :
          (ltb amt (length buf) ≡ true) ⊎ (ltb amt (length buf) ≡ false)
          → ((n : ℕ) (s' : S) → P s' → Left (write_from request fuel none buf (amt + n) s'))
          → Left (write_from request (suc fuel) none buf amt s)
      by_test (inl more) later =
          rw (write_from, more)
            (by_answer later (request none left s).0 (request none left s).1 (keeps left s h))
      by_test (inr end) later = rw (write_from, end) h
