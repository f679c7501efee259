-- ===== src/Uv/Fs/Closes/Copies.antt =====
-- What `copy` of librustuv/src/fs.rs opens and asks to close.
use green_rs.Prelude.{
  ℕ, zero, suc, ◌+◌, ◌≡◌, refl, true, false, inl, inr, Option, none, some, List, drop, length, ltb,
  Bool-cases, arith, ◌==ℤ◌,
}
use green_rs.Uv.Stream.{UvResult, uv_ok, uv_err}
use green_rs.Uv.Fs
use green_rs.Uv.Fs.{FileType, type_directory, type_file, other_type}
use green_rs.Uv.Fs.Requests
use green_rs.Uv.Fs.Requests.{FilePath}
use green_rs.Uv.Fs.Files
use green_rs.Uv.Fs.Files.{
  Constants, System, World, Run, returns, panics, out_of_fuel, M, ◌>>=◌, File, execute_in, execute,
  write_request, ended, write_at, read_at, open_read, create, scope, truncate, write, open_existing,
  read,
}
use green_rs.Uv.Fs.Operations.{stat, chmod}
use green_rs.Uv.Fs.Copy.{buffer_size, copy_chunk, copy_loop, check_kind, copy_into, copy_from, copy}
use green_rs.Uv.Fs.Closes.{nothing, held, held_by, After, bind-After, with_loop-After}
use green_rs.Uv.Fs.Closes.Requested.{
  opened_by, execute-After, request_nop-After, request_stat-After, read_at-After, open_mode-After,
  scope-After,
}

module _ {S : Type 0} (p : ℕ) (sys : System S) (c : Constants) where
  abbrev IsIdle : World S → Type 0
  IsIdle w = w.local_loop ≡ some (p, false)

  -- A run that keeps the balance of descriptors, and the slot of the event loop idle.
  abbrev Keeps : {A : Type 0} → World S → Run S A → Type 0
  Keeps = After p false nothing (λ d. 0)

  -- `>>=` of runs that keep the balance.
  Keeps-bind :
      {A B : Type 0} (w : World S) (m : Run S A) (k : A → M S B)
      → Keeps w m
      → ((a : A) (w' : World S) → IsIdle w' → Keeps w' (k a w'))
      → Keeps w (Files.and_then m k)
  Keeps-bind w m k h later = bind-After p false nothing nothing (λ e d. refl) (λ d. 0) w k later m h

  opened-bind :
      {B : Type 0} (w : World S) (m : Run S File) (k : File → M S B)
      → After p false held_by (λ d. 0) w m
      → ((f : File) (w' : World S) → IsIdle w' → After p false nothing (held f) w' (k f w'))
      → Keeps w (Files.and_then m k)
  opened-bind w m k h later =
      bind-After p false held_by nothing (λ e d. refl) (λ d. 0) w k later m h

  module _ (f : File) where
    write_request-After :
        (position : Option ℕ) (buf : List ℕ) (w : World S)
        → w.local_loop ≡ some (p, true)
        → After p true nothing
            (λ d. 0)
            w
            (returns
              (write_request sys c f position buf w).0
              (write_request sys c f position buf w).1)
    unfolding write_request execute
    write_request-After position buf w l =
        let q : Requests.Request = Requests.write f.fd buf position in
        let h = execute-After p sys true q w l in
        (h.0, λ d. omega (arith, h.1 d, opens_none (execute_in sys q w).0 d))
      where
        opens_none :
            (r : UvResult Requests.Answered) (d : ℕ)
            → opened_by (Requests.write f.fd buf position) r d ≡ 0
        opens_none (uv_ok a) d = refl
        opens_none (uv_err e) d = refl

    write_from-After :
        (fuel : ℕ) (position : Option ℕ) (buf : List ℕ) (amt : ℕ) (w : World S)
        → w.local_loop ≡ some (p, true)
        → After p true nothing
            (λ d. 0)
            w
            (ended sys c (Fs.write_from (write_request sys c f) fuel position buf amt w))
    unfolding Fs.write_from
    write_from-After zero position buf amt w l = tt
    write_from-After (suc fuel) position buf amt w l = elim (Bool-cases (ltb amt (length buf))) [
      | inl more ↦ rw more (
          by_answer (λ m w'' l'. write_from-After fuel position buf (amt + m) w'' l') request.0
            request.1 (write_request-After (Fs.at position amt) (drop amt buf) w l))
      | inr end ↦ rw end (l, λ d. omega arith)
    ]
      where
        request : UvResult ℕ × World S
        request = write_request sys c f (Fs.at position amt) (drop amt buf) w

        rest : ℕ → M S (Unit {0})
        rest n w' =
            ended sys c (Fs.write_from (write_request sys c f) fuel position buf (amt + n) w')

        by_answer :
            ((m : ℕ) (w'' : World S)
              → w''.local_loop ≡ some (p, true)
              → After p true nothing (λ d. 0) w'' (rest m w''))
            → (r : UvResult ℕ) (w' : World S) → After p true nothing (λ d. 0) w (returns r w')
            → After p true nothing
                (λ d. 0)
                w
                (ended sys c (elim r [
                  | uv_ok n ↦ Fs.write_from (write_request sys c f) fuel position buf (amt + n) w'
                  | uv_err e ↦ some (uv_err e, w')
                ]))
        by_answer later (uv_ok n) w' h =
            bind-After p true nothing nothing (λ e d. refl) (λ d. 0) w rest later
              (returns (uv_ok n) w') h
        by_answer later (uv_err e) w' h = h

    write_at-After :
        (rounds : ℕ) (buf : List ℕ) (position : Option ℕ) (w : World S)
        → IsIdle w
        → Keeps w (write_at sys c rounds f buf position w)
    unfolding write_at Fs.write_at
    write_at-After rounds buf position w l =
        with_loop-After p nothing (λ d. 0) w l c.unknown
          (λ w'. ended sys c (Fs.write_from (write_request sys c f) rounds position buf 0 w'))
          (write_from-After rounds position buf 0 (record w { local_loop = some (p, true) }) refl)

  module _ (rounds : ℕ) (reader writer : File) where
    copy_chunk-After :
        (rest : M S (Unit {0}))
        → ((w : World S) → IsIdle w → Keeps w (rest w))
        → (w : World S) (r : Run S (List ℕ)) → Keeps w r
        → Keeps w (copy_chunk sys c rounds writer rest r)
    copy_chunk-After rest later w (returns (uv_ok bytes) w') h =
        Keeps-bind w (returns (uv_ok bytes) w')
          (λ xs w1. Files.and_then (write_at sys c rounds writer xs none w1) (λ _. rest)) h
          (λ xs w1 l1.
            Keeps-bind w1 (write_at sys c rounds writer xs none w1) (λ _. rest)
              (write_at-After writer rounds xs none w1 l1) (λ _ w2 l2. later w2 l2))
    copy_chunk-After rest later w (returns (uv_err e) w') h = elim (Bool-cases (e ==ℤ c.eof)) [
      | inl end ↦ rw end h
      | inr bad ↦ rw bad h
    ]
    copy_chunk-After rest later w (panics f) h = h
    copy_chunk-After rest later w out_of_fuel h = tt

    copy_loop-After :
        (fuel : ℕ) (w : World S) → IsIdle w → Keeps w (copy_loop sys c rounds fuel reader writer w)
    unfolding copy_loop
    copy_loop-After zero w l = tt
    copy_loop-After (suc fuel) w l =
        copy_chunk-After (copy_loop sys c rounds fuel reader writer)
          (λ w' l'. copy_loop-After fuel w' l') w (read_at sys c reader buffer_size none w)
          (read_at-After p sys c w l reader buffer_size none)

  check_kind-After : (kind : FileType) (w : World S) → IsIdle w → Keeps w (check_kind sys c kind w)
  check_kind-After type_file w l = (l, λ d. omega arith)
  check_kind-After type_directory w l = (l, λ d. omega arith)
  check_kind-After other_type w l = (l, λ d. omega arith)

  module _ (rounds fuel : ℕ) (from to : FilePath) (reader : File) where
    copy_into-After :
        (writer : File) (w : World S)
        → IsIdle w
        → Keeps w (copy_into sys c rounds fuel from to reader writer w)
    unfolding stat chmod
    copy_into-After writer w l =
        Keeps-bind w (copy_loop sys c rounds fuel reader writer w) _
          (copy_loop-After rounds reader writer fuel w l)
          (λ _ w1 l1.
            Keeps-bind w1 (stat sys c from w1) _
              (request_stat-After p sys c w1 l1 (Requests.stat from) (λ d n. refl))
              (λ s w2 l2. request_nop-After p sys c w2 l2 (Requests.chmod to s.perm) (λ d n. refl)))

    copy_from-After :
        (w : World S) → IsIdle w → Keeps w (copy_from sys c rounds fuel from to reader w)
    unfolding create scope
    copy_from-After w l =
        opened-bind w (create sys c to w) _ (open_mode-After p sys c w l to truncate write)
          (λ writer w1 l1.
            scope-After p sys c writer w1 (copy_into sys c rounds fuel from to reader writer w1)
              (copy_into-After writer w1 l1))

  -- Whatever the file system answers, `copy` does not panic if the event loop is not borrowed when it
  -- starts; and when it returns, with `Ok` or an error, the loop is not borrowed, and of each file
  -- descriptor it has asked for as many closes as it has opened.
  pub copy-After :
      (rounds fuel : ℕ) (from to : FilePath) (w : World S)
      → w.local_loop ≡ some (p, false)
      → After p false nothing (λ d. 0) w (copy sys c rounds fuel from to w)
  unfolding copy stat open_read scope
  copy-After rounds fuel from to w l =
      Keeps-bind w (stat sys c from w) _
        (request_stat-After p sys c w l (Requests.stat from) (λ d n. refl))
        (λ s w1 l1.
          Keeps-bind w1 (check_kind sys c s.kind w1) _ (check_kind-After s.kind w1 l1) (λ _ w2 l2.
            opened-bind w2 (open_read sys c from w2) _
              (open_mode-After p sys c w2 l2 from open_existing read)
              (λ reader w3 l3.
                scope-After p sys c reader w3 (copy_from sys c rounds fuel from to reader w3)
                  (copy_from-After rounds fuel from to reader w3 l3))))
