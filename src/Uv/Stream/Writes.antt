-- ===== src/Uv/Stream/Writes.antt =====
-- The requests that the writes of librustuv/src/stream.rs make, keep and free.
use native.Mathlib.Numerals.{unary_clauses}
use green_rs.Prelude.{
  ℕ, suc, ◌+◌, ◌≤◌, ◌≡◌, refl, Option, none, some, List, [], ◌∷◌, map, Result, ok, arith,
  if◌then◌else◌, then_ok, ℤ, pos, ◌==ℤ◌,
}
use green_rs.Uv.Block.{wakeup}
use green_rs.Uv.Stream.{
  UvResult, uv_ok, uv_err, Writing, write_begin, write_cb, write_end, drop_write, drop_stream,
}

-- A write: whether the request is refused, and the status that is reported otherwise.
pub data Attempt : Type 0 where
  refused reported : ℤ → Attempt

abbrev refusal : Attempt → Option ℤ
refusal (refused e) = some e
refusal (reported status) = none

abbrev status_of : Attempt → ℤ
status_of (refused e) = pos 0
status_of (reported status) = status

pub write : ℕ → Attempt → Writing → Result (Writing × UvResult (Unit {0}))
write task a w =
    let (w', begun) = write_begin task (refusal a) w in
    elim begun [
      | uv_err e ↦ ok (w', uv_err e)
      | uv_ok (req, c) ↦ then_ok (write_cb (status_of a) c) (λ d. ok (write_end req d.0 w'))
    ]

pub write_all : ℕ → List Attempt → Writing → Result (Writing × List (UvResult (Unit {0})))
write_all task [] w = ok (w, [])
write_all task (a ∷ rest) w =
    then_ok (write task a w) (λ b. then_ok (write_all task rest b.0) (λ c. ok (c.0, b.1 ∷ c.1)))

abbrev pub outcome : Attempt → UvResult (Unit {0})
outcome (refused e) = uv_err e
outcome (reported status) = if status ==ℤ pos 0 then uv_ok tt else uv_err status

abbrev pub refusals : List Attempt → ℕ
refusals [] = 0
refusals (refused e ∷ rest) = suc (refusals rest)
refusals (reported status ∷ rest) = refusals rest

-- The writing when so many requests have been freed: none is left, or the cached one.
abbrev pub at : Option ℕ → ℕ → Writing
at none freed = record { last_write_req = none; made = freed; freed = freed }
at (some req) freed = record { last_write_req = some req; made = freed + 1; freed = freed }

-- What one write leaves.
write-at :
    (task : ℕ) (a : Attempt) (c : Option ℕ) (freed : ℕ)
    → (c' : Option ℕ) × (write task a (at c freed)
        ≡ ok (at c' (freed + refusals (a ∷ [])), outcome a))
unfolding write write_begin write_cb write_end drop_write wakeup
write-at task (refused code) none freed = (none, refl)
write-at task (refused code) (some req) freed = (none, refl)
write-at task (reported status) none freed = (some freed, simp unary_clauses refl)
write-at task (reported status) (some req) freed = (some req, simp unary_clauses refl)

write_all-at :
    (task : ℕ) (attempts : List Attempt) (c : Option ℕ) (freed : ℕ)
    → (c' : Option ℕ) × (write_all task attempts (at c freed)
        ≡ ok (at c' (freed + refusals attempts), map outcome attempts))
unfolding write_all
write_all-at task [] c freed = (c, simp unary_clauses refl)
write_all-at task (a ∷ rest) c freed =
    let first = write-at task a c freed in
    let later = write_all-at task rest first.0 (freed + refusals (a ∷ [])) in
    (later.0, rw (first.1, later.1) (rw (sum a rest freed) refl))
  where
    sum :
        (a : Attempt) (rest : List Attempt) (n : ℕ)
        → n + refusals (a ∷ []) + refusals rest ≡ n + refusals (a ∷ rest)
    sum (refused code) rest n = omega arith
    sum (reported status) rest n = omega arith

-- On a new stream, writes one after another answer with their statuses or with why the request was
-- refused; at most one request more than there were refusals is made; and when the stream is dropped
-- all that were made have been freed.
pub write_all_lem :
    (task : ℕ) (attempts : List Attempt)
    → (w : Writing) × (write_all task attempts (at none 0) ≡ ok (w, map outcome attempts))
      × (w.made ≤ refusals attempts + 1)
      × ((drop_stream w).freed ≡ w.made)
unfolding drop_stream drop_write
write_all_lem task attempts = by_cached (write_all-at task attempts none 0)
  where
    by_cached :
        ((c : Option ℕ) × (write_all task attempts (at none 0)
            ≡ ok (at c (0 + refusals attempts), map outcome attempts)))
        → (w : Writing) × (write_all task attempts (at none 0) ≡ ok (w, map outcome attempts))
          × (w.made ≤ refusals attempts + 1)
          × ((drop_stream w).freed ≡ w.made)
    by_cached (none, e) = (at none (0 + refusals attempts), e, omega arith, refl)
    by_cached (some req, e) = (at (some req) (0 + refusals attempts), e, omega arith, refl)
