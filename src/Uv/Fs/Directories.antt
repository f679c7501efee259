-- ===== src/Uv/Fs/Directories.antt =====
-- The directories that `mkdir_recursive` of librustuv/src/fs.rs makes.
use mathlib.Core.List.{append_assoc, append-nil}
use green_rs.Prelude.{
  ℕ, ◌≡◌, ◌≢◌, ap, refl, sym, ◌⊎◌, inl, inr, Option, none, some, List, [], ◌∷◌, ◌++◌, ℤ,
}
use green_rs.Uv.Stream.{UvResult, uv_ok, uv_err}
use green_rs.Uv.Fs.{
  FileType, type_directory, type_file, other_type, mkdir_all, mkdir_recursive, mkdir_error,
  mkdir_failed,
}

-- A path that is made is a directory then, and directories stay while paths are made.
module _ {ℓ} {S : Type ℓ} (stat : List ℕ → S → UvResult FileType)
    (mkdir : List ℕ → S → UvResult (Unit {0}) × S)
    (made : (path : List ℕ) (s : S)
      → (mkdir path s).0 ≡ uv_ok tt
      → stat path (mkdir path s).1 ≡ uv_ok type_directory) where
  mkdir_failed-none :
      (e : ℤ) (found : UvResult FileType)
      → mkdir_failed stat mkdir e found ≡ none
      → found ≡ uv_ok type_directory
  mkdir_failed-none e (uv_ok type_directory) h = refl
  mkdir_failed-none e (uv_ok type_file) h = absurd (cc)
  mkdir_failed-none e (uv_ok other_type) h = absurd (cc)
  mkdir_failed-none e (uv_err other) h = absurd (cc)

  mkdir_error-none :
      (path : List ℕ) (result : UvResult (Unit {0})) (s : S)
      → mkdir_error stat mkdir path result s ≡ none
      → (result ≡ uv_ok tt → stat path s ≡ uv_ok type_directory)
      → stat path s ≡ uv_ok type_directory
  mkdir_error-none path (uv_ok tt) s h then = then refl
  mkdir_error-none path (uv_err e) s h then = mkdir_failed-none e (stat path s) h

  -- Why the answer to a path that could not be made is that code: with the error of `mkdir`, if the
  -- path is something else than a directory, or with that of `stat`.
  abbrev pub Explains : ℤ → ℤ → UvResult FileType → Type 0
  Explains code mkdir_err (uv_ok kind) = code ≡ mkdir_err
  Explains code mkdir_err (uv_err e) = code ≡ e

  -- The directory `above` is there and the next part of the path could not be made in it, and is no
  -- directory in the end, when nothing has been done since.
  pub record IsRefused (path : List ℕ) (answer : UvResult (Unit {0})) (end : S) : Type ℓ where
    pub above : List ℕ
    pub next : ℕ
    pub rest : List ℕ
    pub state : S
    pub code : ℤ
    pub mkdir_err : ℤ
    pub whole : (above ++ next ∷ []) ++ rest ≡ path
    pub there : stat above state ≡ uv_ok type_directory
    pub refused : mkdir (above ++ next ∷ []) state ≡ (uv_err mkdir_err, end)
    pub missing : stat (above ++ next ∷ []) end ≢ uv_ok type_directory
    pub explained : Explains code mkdir_err (stat (above ++ next ∷ []) end)
    pub same : answer ≡ uv_err code

  mkdir_failed-some :
      (e code : ℤ) (found : UvResult FileType)
      → mkdir_failed stat mkdir e found ≡ some code
      → (found ≢ uv_ok type_directory) × Explains code e found
  mkdir_failed-some e code (uv_ok type_directory) h = absurd (cc)
  mkdir_failed-some e code (uv_ok type_file) h = ((λ f. cc), cc)
  mkdir_failed-some e code (uv_ok other_type) h = ((λ f. cc), cc)
  mkdir_failed-some e code (uv_err other) h = ((λ f. cc), cc)

  mkdir_error-some :
      (path : List ℕ) (code : ℤ) (result : UvResult (Unit {0})) (s : S)
      → mkdir_error stat mkdir path result s ≡ some code
      → (e : ℤ) × (result ≡ uv_err e)
        × (stat path s ≢ uv_ok type_directory)
        × Explains code e (stat path s)
  mkdir_error-some path code (uv_ok _) s h = absurd (cc)
  mkdir_error-some path code (uv_err e) s h =
      let (missing, explained) = mkdir_failed-some e code (stat path s) h in
      (e, refl, missing, explained)

  abbrev pub IsMade : List ℕ → UvResult (Unit {0}) × S → Type ℓ
  IsMade path (answer, s) =
      ((answer ≡ uv_ok tt) × (stat path s ≡ uv_ok type_directory)) ⊎ IsRefused path answer s

  mkdir_all-IsMade :
      (comps curpath : List ℕ) (s : S)
      → stat curpath s ≡ uv_ok type_directory
      → IsMade (curpath ++ comps) (mkdir_all stat mkdir curpath comps s)
  unfolding mkdir_all
  mkdir_all-IsMade [] curpath s there = inl (refl, rw (append-nil curpath) there)
  mkdir_all-IsMade (c ∷ comps) curpath s there =
      by_error (mkdir_all-IsMade comps next s') (mkdir_error stat mkdir next result s') refl
    where
      next : List ℕ
      next = curpath ++ c ∷ []

      result : UvResult (Unit {0})
      result = (mkdir next s).0

      s' : S
      s' = (mkdir next s).1

      by_error :
          (stat next s' ≡ uv_ok type_directory
            → IsMade (next ++ comps) (mkdir_all stat mkdir next comps s'))
          → (x : Option ℤ) → mkdir_error stat mkdir next result s' ≡ x
          → IsMade (curpath ++ c ∷ comps) (mkdir_all stat mkdir curpath (c ∷ comps) s)
      by_error later none f =
          rw (mkdir_all, f, sym (append_assoc curpath (c ∷ []) comps))
            (later (mkdir_error-none next result s' f (made next s)))
      by_error later (some code) f =
          let (e, failed, missing, explained) = mkdir_error-some next code result s' f in
          rw (mkdir_all, f)
            (inr (record {
              above = curpath;
              next = c;
              rest = comps;
              state = s;
              code = code;
              mkdir_err = e;
              whole = append_assoc curpath (c ∷ []) comps;
              there = there;
              refused = ap (λ r. (r, s')) failed;
              missing = missing;
              explained = explained;
              same = refl;
            }))

  -- If what `mkdir` makes is a directory, and so is where a path starts, then `mkdir_recursive` answers
  -- `Ok`, and the path is a directory; or `mkdir` has refused to make some part of the path in what is a
  -- directory, that part is no directory when it answers, and it answers with the error of that `mkdir`,
  -- or of `stat` if it does not even find that part.
  pub mkdir_recursive-IsMade :
      (path : List ℕ) (s : S)
      → stat [] s ≡ uv_ok type_directory
      → IsMade path (mkdir_recursive stat mkdir path s)
  unfolding mkdir_recursive
  mkdir_recursive-IsMade path s there = by_stat (stat path s) refl
    where
      by_stat :
          (found : UvResult FileType)
          → stat path s ≡ found
          → IsMade path (mkdir_recursive stat mkdir path s)
      by_stat (uv_ok type_directory) e = rw (mkdir_recursive, e) (inl (refl, e))
      by_stat (uv_ok type_file) e = rw (mkdir_recursive, e) (mkdir_all-IsMade path [] s there)
      by_stat (uv_ok other_type) e = rw (mkdir_recursive, e) (mkdir_all-IsMade path [] s there)
      by_stat (uv_err code) e = rw (mkdir_recursive, e) (mkdir_all-IsMade path [] s there)
