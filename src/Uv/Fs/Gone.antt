-- ===== src/Uv/Fs/Gone.antt =====
-- What `rmdir_recursive` of librustuv/src/fs.rs removes.
use mathlib.Core.Path.{subst}
use green_rs.Prelude.{
  ℕ, zero, suc, ◌≡◌, refl, ◌⊎◌, inl, inr, Bool, true, false, Option, none, some, List, [], ◌∷◌, ℤ,
}
use green_rs.Uv.Stream.{UvResult, uv_ok, uv_err}
use green_rs.Uv.Fs.{FileType, type_directory, type_file, other_type}
use green_rs.Uv.Fs.Removal.{error_of, delete_children, rmdir_loop, rmdir_recursive}

-- What has been removed, or was not there, is gone, and stays so while more is removed.
module _ {ℓ} {S : Type ℓ} (readdir : List ℕ → S → UvResult (List (List ℕ)))
    (lstat : List ℕ → S → UvResult FileType) (unlink rmdir : List ℕ → S → UvResult (Unit {0}) × S)
    (enoent : ℤ) (IsGone : List ℕ → S → Type 0)
    (removes : (d : List ℕ) (s : S)
      → error_of readdir lstat unlink rmdir enoent (rmdir d s).0 ≡ none
      → IsGone d (rmdir d s).1)
    (unlink_keeps : (d q : List ℕ) (s : S) → IsGone d s → IsGone d (unlink q s).1)
    (rmdir_keeps : (d q : List ℕ) (s : S) → IsGone d s → IsGone d (rmdir q s).1)
    (path : List ℕ) where
  -- The path is on the stack still, or gone.
  abbrev Due : List (List ℕ) → S → Type 0
  Due [] s = IsGone path s
  Due (d ∷ below) s = (d ≡ path) ⊎ Due below s

  gone-Due : (rm_stack : List (List ℕ)) (s : S) → IsGone path s → Due rm_stack s
  gone-Due [] s h = h
  gone-Due (d ∷ below) s h = inr (gone-Due below s h)

  unlink-Due :
      (rm_stack : List (List ℕ)) (q : List ℕ) (s : S) → Due rm_stack s → Due rm_stack (unlink q s).1
  unlink-Due [] q s h = unlink_keeps path q s h
  unlink-Due (d ∷ below) q s (inl e) = inl e
  unlink-Due (d ∷ below) q s (inr h) = inr (unlink-Due below q s h)

  rmdir-Due :
      (rm_stack : List (List ℕ)) (q : List ℕ) (s : S) → Due rm_stack s → Due rm_stack (rmdir q s).1
  rmdir-Due [] q s h = rmdir_keeps path q s h
  rmdir-Due (d ∷ below) q s (inl e) = inl e
  rmdir-Due (d ∷ below) q s (inr h) = inr (rmdir-Due below q s h)

  -- What a loop over children leaves.
  record IsKept (below : List (List ℕ)) (r : UvResult (List (List ℕ) × Bool) × S) : Type ℓ where
    others : Due below r.1
    stack : (rm_stack : List (List ℕ)) (has : Bool) → r.0 ≡ uv_ok (rm_stack, has) → Due rm_stack r.1

  same_stack :
      {st st' : List (List ℕ)} {has has' : Bool} (s : S)
      → Path (UvResult (List (List ℕ) × Bool)) (uv_ok (st, has)) (uv_ok (st', has'))
      → Due st s
      → Due st' s
  same_stack s e h = subst (λ l. Due l s) (stacks e) h
    where
      stacks :
          {st st' : List (List ℕ)} {has has' : Bool}
          → Path (UvResult (List (List ℕ) × Bool)) (uv_ok (st, has)) (uv_ok (st', has'))
          → st ≡ st'
      stacks e = cc

  delete_children-IsKept :
      (children rm_stack below : List (List ℕ)) (has : Bool) (s : S)
      → Due below s
      → Due rm_stack s
      → IsKept below (delete_children readdir lstat unlink rmdir enoent children rm_stack has s)
  unfolding delete_children
  delete_children-IsKept [] rm_stack below has s h k = record {
    others = h;
    stack = λ st has' e. same_stack s e k;
  }
  delete_children-IsKept (child ∷ rest) rm_stack below has s h k =
      by_stat (delete_children-IsKept rest (child ∷ rm_stack) below true s h (inr k))
        (delete_children-IsKept rest rm_stack below has s' (unlink-Due below child s h)
          (unlink-Due rm_stack child s k))
        (lstat child s) refl
    where
      result : UvResult (Unit {0})
      result = (unlink child s).0

      s' : S
      s' = (unlink child s).1

      by_error :
          IsKept below (delete_children readdir lstat unlink rmdir enoent rest rm_stack has s')
          → (x : Option ℤ) → error_of readdir lstat unlink rmdir enoent result ≡ x
          → IsKept below (elim x as (λ _. UvResult (List (List ℕ) × Bool) × S) [
            | none ↦ delete_children readdir lstat unlink rmdir enoent rest rm_stack has s'
            | some e ↦ (uv_err e, s')
          ])
      by_error later none e = later
      by_error later (some code) e = record {
        others = unlink-Due below child s h;
        stack = λ st has' f. absurd (cc);
      }

      by_stat :
          IsKept below
            (delete_children readdir lstat unlink rmdir enoent rest (child ∷ rm_stack) true s)
          → IsKept below (delete_children readdir lstat unlink rmdir enoent rest rm_stack has s')
          → (found : UvResult FileType) → lstat child s ≡ found
          → IsKept below
              (delete_children readdir lstat unlink rmdir enoent (child ∷ rest) rm_stack has s)
      by_stat pushed deleted (uv_err code) e =
          rw (delete_children, e) (record { others = h; stack = λ st has' f. absurd (cc) })
      by_stat pushed deleted (uv_ok type_directory) e = rw (delete_children, e) pushed
      by_stat pushed deleted (uv_ok type_file) e =
          rw (delete_children, e)
            (by_error deleted (error_of readdir lstat unlink rmdir enoent result) refl)
      by_stat pushed deleted (uv_ok other_type) e =
          rw (delete_children, e)
            (by_error deleted (error_of readdir lstat unlink rmdir enoent result) refl)

  popped-Due :
      (d : List ℕ) (below : List (List ℕ)) (s : S)
      → error_of readdir lstat unlink rmdir enoent (rmdir d s).0 ≡ none
      → Due (d ∷ below) s
      → Due below (rmdir d s).1
  popped-Due d below s e (inl same) =
      gone-Due below (rmdir d s).1 (subst (λ p. IsGone p (rmdir d s).1) same (removes d s e))
  popped-Due d below s e (inr h) = rmdir-Due below d s h

  rmdir_loop-IsGone :
      (fuel : ℕ) (rm_stack : List (List ℕ)) (s s' : S)
      → Due rm_stack s
      → rmdir_loop readdir lstat unlink rmdir enoent fuel rm_stack s ≡ some (uv_ok tt, s')
      → IsGone path s'
  unfolding rmdir_loop
  rmdir_loop-IsGone zero rm_stack s s' h e = absurd (cc)
  rmdir_loop-IsGone (suc fuel) [] s s' h e = subst (IsGone path) (ended e) h
    where
      ended :
          {s t : S}
          → Path (Option (UvResult (Unit {0}) × S)) (some (uv_ok tt, s)) (some (uv_ok tt, t))
          → s ≡ t
      ended e = cc
  rmdir_loop-IsGone (suc fuel) (d ∷ below) s s' h e =
      by_children (λ st t. rmdir_loop-IsGone fuel st t s') (readdir d s) refl
    where
      by_popped :
          ((st : List (List ℕ)) (t : S)
            → Due st t
            → rmdir_loop readdir lstat unlink rmdir enoent fuel st t ≡ some (uv_ok tt, s')
            → IsGone path s')
          → (t : S) → Due (d ∷ below) t
          → (x : Option ℤ) → error_of readdir lstat unlink rmdir enoent (rmdir d t).0 ≡ x
          → (elim x as (λ _. Option (UvResult (Unit {0}) × S)) [
            | none ↦ rmdir_loop readdir lstat unlink rmdir enoent fuel below (rmdir d t).1
            | some code ↦ some (uv_err code, (rmdir d t).1)
          ])
            ≡ some (uv_ok tt, s')
          → IsGone path s'
      by_popped later t due none f g = later below (rmdir d t).1 (popped-Due d below t f due) g
      by_popped later t due (some code) f g = absurd (cc)

      by_found :
          ((st : List (List ℕ)) (t : S)
            → Due st t
            → rmdir_loop readdir lstat unlink rmdir enoent fuel st t ≡ some (uv_ok tt, s')
            → IsGone path s')
          → (children : List (List ℕ)) → readdir d s ≡ uv_ok children
          → (found : UvResult (List (List ℕ) × Bool))
          → (delete_children readdir lstat unlink rmdir enoent children (d ∷ below) false s).0
            ≡ found
          → IsGone path s'
      by_found later children f (uv_err code) g = absurd (cc (rw (rmdir_loop, f, g) at e))
      by_found later children f (uv_ok (st, true)) g =
          later st _
            ((delete_children-IsKept children (d ∷ below) (d ∷ below) false s h h).stack st true g)
            (rw (rmdir_loop, f, g) at e)
      by_found later children f (uv_ok (st, false)) g =
          by_popped later _
            (delete_children-IsKept children (d ∷ below) (d ∷ below) false s h h).others _ refl
            (rw (rmdir_loop, f, g) at e)

      by_children :
          ((st : List (List ℕ)) (t : S)
            → Due st t
            → rmdir_loop readdir lstat unlink rmdir enoent fuel st t ≡ some (uv_ok tt, s')
            → IsGone path s')
          → (found : UvResult (List (List ℕ))) → readdir d s ≡ found
          → IsGone path s'
      by_children later (uv_err code) f = absurd (cc (rw (rmdir_loop, f) at e))
      by_children later (uv_ok children) f = by_found later children f _ refl

  -- If a removal that succeeds, or finds nothing, leaves nothing there, and removals bring nothing back,
  -- then after `rmdir_recursive` has answered `Ok` the path is gone.
  pub rmdir_recursive-IsGone :
      (fuel : ℕ) (s s' : S)
      → rmdir_recursive readdir lstat unlink rmdir enoent fuel path s ≡ some (uv_ok tt, s')
      → IsGone path s'
  unfolding rmdir_recursive
  rmdir_recursive-IsGone fuel s s' e = rmdir_loop-IsGone fuel (path ∷ []) s s' (inl refl) e
