-- ===== src/Uv/Fs/Files.antt =====
-- librustuv/src/fs.rs: files, and the functions around one request each. Every one of them borrows the
-- event loop for as long as its request takes.
use Prim.Native.Nat.{bit_or}
use green_rs.Prelude.{
  ℕ, Option, none, some, List, ◌∷◌, ok, fault, Fault, unwrap, take, ℤ, magnitude,
}
use green_rs.Uv.EventLoop.{LocalLoop, borrow, drop_borrowed}
use green_rs.Uv.Stream.{UvResult, uv_ok, uv_err}
use green_rs.Uv.Fs
use green_rs.Uv.Fs.Requests
use green_rs.Uv.Fs.Requests.{FilePath, Request, UvStat, Answered, FileStat, Modes, result, io_stat}

pub data FileMode : Type 0 where
  open_existing append truncate : FileMode

pub data FileAccess : Type 0 where
  read write read_write : FileAccess

-- Constants of libc, and libuv's UNKNOWN, EOF and EINVAL.
pub record Constants : Type 0 where
  pub o_append : ℕ
  pub o_trunc : ℕ
  pub o_rdonly : ℕ
  pub o_wronly : ℕ
  pub o_rdwr : ℕ
  pub o_creat : ℕ
  pub s_irusr : ℕ
  pub s_iwusr : ℕ
  pub modes : Modes
  pub unknown : ℤ
  pub eof : ℤ
  pub einval : ℤ

-- The file system: why a request is refused at once, if it is, or what it is answered.
pub record System (S : Type 0) : Type 0 where
  pub refuses : Request → S → Option ℤ
  pub responds : Request → S → Answered × S

-- The state of the file system, the slot of the thread for its event loop, and the requests that have
-- been made, the last one first, with their results unless they were refused.
pub record World (S : Type 0) : Type 0 where
  pub files : S
  pub local_loop : LocalLoop
  pub made : List (Request × Option ℤ)

-- A run: it returns `Ok` or `Err`, it panics, or its fuel runs out.
pub data Run (S : Type 0) (A : Type 0) : Type 0 where
  returns : UvResult A → World S → Run S A
  panics : Fault → Run S A
  out_of_fuel : Run S A

abbrev pub M : Type 0 → Type 0 → Type 0
M S A = World S → Run S A

module _ {S A : Type 0} where
  abbrev pub give : A → M S A
  give a w = returns (uv_ok a) w

  abbrev pub fail : ℤ → M S A
  fail e w = returns (uv_err e) w

module _ {S A B : Type 0} where
  abbrev pub and_then : Run S A → (A → M S B) → Run S B
  and_then (returns (uv_ok a) w) k = k a w
  and_then (returns (uv_err e) w) k = returns (uv_err e) w
  and_then (panics f) k = panics f
  and_then out_of_fuel k = out_of_fuel

  -- `try!`
  infixl 5 ◌>>=◌ ◌>>◌
  abbrev pub ◌>>=◌ : M S A → (A → M S B) → M S B
  m >>= k = λ w. and_then (m w) k

  abbrev pub ◌>>◌ : M S A → M S B → M S B
  m >> k = m >>= λ _. k

module _ {S A : Type 0} where
  -- The end of a scope that has borrowed the event loop at `p`.
  abbrev pub give_back : ℕ → Run S A → Run S A
  give_back p (returns r w) = elim (drop_borrowed p w.local_loop) [
    | ok l ↦ returns r (record w { local_loop = l })
    | fault f ↦ panics f
  ]
  give_back p (panics f) = panics f
  give_back p out_of_fuel = out_of_fuel

  abbrev pub borrowed : M S A → World S → UvResult ℕ × LocalLoop → Run S A
  borrowed body w (uv_err e, l) = returns (uv_err e) (record w { local_loop = l })
  borrowed body w (uv_ok p, l) = give_back p (body (record w { local_loop = l }))

  -- `EventLoop::borrow()` under `try!`, for a scope, as in the macro `f!`.
  unfoldable pub with_loop : (unknown : ℤ) → M S A → M S A
  unfolding borrow drop_borrowed
  with_loop unknown body w = borrowed body w (borrow unknown w.local_loop)

pub record File : Type 0 where
  pub fd : ℤ
  pub path : FilePath

unfoldable pub open_flags : Constants → FileMode → FileAccess → ℕ × ℕ
open_flags c mode access =
    let flags : ℕ = elim mode [ open_existing ↦ 0 | append ↦ c.o_append | truncate ↦ c.o_trunc ] in
    let permissions = bit_or c.s_irusr c.s_iwusr in
    elim access [
      | read ↦ (bit_or flags c.o_rdonly, 0)
      | write ↦ (bit_or (bit_or flags c.o_wronly) c.o_creat, permissions)
      | read_write ↦ (bit_or (bit_or flags c.o_rdwr) c.o_creat, permissions)
    ]

module _ {S : Type 0} (sys : System S) where
  -- `execute` as a whole, its task blocked meanwhile. A request that is refused has no result.
  unfoldable pub execute_in : Request → World S → UvResult Answered × World S
  unfolding result
  execute_in q w = elim (sys.refuses q w.files) [
    | some e ↦ (uv_err e, record w { made = (q, none) ∷ w.made })
    | none ↦
        let (a, files) = sys.responds q w.files in
        let w' = record w { files = files; made = (q, some a.result) ∷ w.made } in
        elim (result a.result) [ uv_ok _ ↦ (uv_ok a, w') | uv_err e ↦ (uv_err e, w') ]
  ]

  unfoldable pub execute : Request → M S Answered
  execute q w = let (r, w') = execute_in q w in returns r w'

  unfoldable pub execute_nop : Request → M S (Unit {0})
  unfolding execute
  execute_nop q = do execute q; give tt

  module _ (c : Constants) where
    unfoldable pub open_mode : FilePath → FileMode → FileAccess → M S File
    unfolding with_loop open_flags execute
    open_mode path mode access =
        let (flags, permissions) = open_flags c mode access in
        with_loop c.unknown (do
          a ← execute (Requests.open_file path flags permissions)
          give (record { fd = a.result; path = path }))

    unfoldable pub open_read : FilePath → M S File
    unfolding open_mode
    open_read path = open_mode path open_existing read

    unfoldable pub create : FilePath → M S File
    unfolding open_mode
    create path = open_mode path truncate write

    abbrev pub ignore : Run S (Unit {0}) → Run S (Unit {0})
    ignore (returns _ w) = returns (uv_ok tt) w
    ignore (panics f) = panics f
    ignore out_of_fuel = out_of_fuel

    abbrev pub drop_with : File → World S → UvResult ℕ × LocalLoop → Run S (Unit {0})
    drop_with f w (uv_err e, l) = panics unwrap
    drop_with f w (uv_ok p, l) =
        give_back p (ignore (execute_nop (Requests.close_file f.fd) (record w { local_loop = l })))

    -- The drop of a file unwraps the event loop and ignores what the request answers.
    unfoldable pub drop_file : File → M S (Unit {0})
    unfolding borrow drop_borrowed execute_nop
    drop_file f w = drop_with f w (borrow c.unknown w.local_loop)

    abbrev pub keep : {A : Type 0} → UvResult A → Run S (Unit {0}) → Run S A
    keep r (returns _ w) = returns r w
    keep r (panics f) = panics f
    keep r out_of_fuel = out_of_fuel

    abbrev pub drop_after : {A : Type 0} → File → Run S A → Run S A
    drop_after f (returns r w) = keep r (drop_file f w)
    drop_after f (panics e) = panics e
    drop_after f out_of_fuel = out_of_fuel

    -- The scope of a file, at whose end it is dropped, also after an error.
    unfoldable pub scope : {A : Type 0} → File → M S A → M S A
    unfolding drop_file
    scope f m w = drop_after f (m w)

    abbrev pub bytes_read : Answered → UvResult ℕ → UvResult (List ℕ)
    bytes_read a (uv_ok n) = uv_ok (take n a.bytes)
    bytes_read a (uv_err e) = uv_err e

    -- The bytes that are read, of a buffer of some length.
    unfoldable pub read_at : File → (len : ℕ) → (pos : Option ℕ) → M S (List ℕ)
    unfolding with_loop execute Fs.read_at
    read_at f len pos = with_loop c.unknown (do
      a ← execute (Requests.read f.fd len pos)
      λ w. returns (bytes_read a (Fs.read_at c.eof (uv_ok a.result))) w)

    unfoldable pub write_request : File → Option ℕ → List ℕ → World S → UvResult ℕ × World S
    unfolding execute_in
    write_request f pos buf w =
        let (r, w') = execute_in (Requests.write f.fd buf pos) w in
        (elim r [ uv_ok a ↦ uv_ok (magnitude a.result) | uv_err e ↦ uv_err e ], w')

    abbrev pub ended : Option (UvResult (Unit {0}) × World S) → Run S (Unit {0})
    ended none = out_of_fuel
    ended (some (r, w)) = returns r w

    unfoldable pub write_at : (fuel : ℕ) → File → List ℕ → (pos : Option ℕ) → M S (Unit {0})
    unfolding with_loop write_request
    write_at fuel f buf pos =
        with_loop c.unknown (λ w. ended (Fs.write_at (write_request f) fuel pos buf w))

    -- One request whose answer is of no use.
    unfoldable pub request_nop : Request → M S (Unit {0})
    unfolding with_loop execute_nop
    request_nop q = with_loop c.unknown (execute_nop q)

    -- One request for the metadata of a file.
    unfoldable pub request_stat : Request → M S FileStat
    unfolding with_loop execute io_stat
    request_stat q = with_loop c.unknown (do a ← execute q; give (io_stat c.modes a.stat))
