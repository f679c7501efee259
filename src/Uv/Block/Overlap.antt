-- ===== src/Uv/Block/Overlap.antt =====
-- Several tasks that are blocked on one event loop of librustuv/src/lib.rs at a time.
use mathlib.Core.List.{reverse, reverse-cons}
use green_rs.Prelude.{
  ℕ, zero, suc, ◌+◌, ◌^◌, ◌<◌, ◌≡◌, refl, ap, ◌∙◌, true, List, [], ◌∷◌, ◌++◌, arith,
}
use green_rs.Stack.{uint}
use green_rs.Uv.Block.{block_start, block_end, has_active_io}

-- So many tasks block, one after another: the counts that they keep, oldest task first, and the
-- count then.
pub start_all : (tasks cnt : ℕ) → List ℕ × ℕ
start_all zero cnt = ([], cnt)
start_all (suc tasks) cnt =
    let (kept, now) = block_start cnt in
    let (others, last) = start_all tasks now in (kept ∷ others, last)

-- They are reawakened in that order.
pub end_all : List ℕ → ℕ → ℕ
end_all [] now = now
end_all (kept ∷ others) now = end_all others (block_end kept now)

end_all-append : (xs : List ℕ) (kept now : ℕ) → end_all (xs ++ kept ∷ []) now ≡ kept
unfolding end_all block_end
end_all-append [] kept now = refl
end_all-append (x ∷ xs) kept now = end_all-append xs kept x

oldest_first :
    (tasks cnt now : ℕ)
    → cnt + suc tasks < 2 ^ 64
    → end_all (start_all (suc tasks) cnt).0 now ≡ cnt + tasks
unfolding start_all end_all block_start block_end
oldest_first zero cnt now h = omega arith
oldest_first (suc tasks) cnt now h =
    oldest_first tasks (uint (cnt + 1)) cnt (omega arith) ∙ omega arith

newest_first : (tasks cnt now : ℕ) → end_all (reverse (start_all (suc tasks) cnt).0) now ≡ cnt
unfolding start_all block_start
newest_first tasks cnt now =
    let others : List ℕ = (start_all tasks (uint (cnt + 1))).0 in
    ap (λ xs. end_all xs now) (reverse-cons cnt others) ∙ end_all-append (reverse others) cnt now

-- Let two or more tasks block on a loop one after another and then be reawakened. If the newest goes
-- first, the count is what it was. If the oldest goes first, the count is then too large by their
-- number less one: the loop has active I/O with nobody blocked.
pub block_overlap :
    (tasks cnt now : ℕ)
    → cnt + suc (suc tasks) < 2 ^ 64
    → (end_all (reverse (start_all (suc (suc tasks)) cnt).0) now ≡ cnt)
      × (end_all (start_all (suc (suc tasks)) cnt).0 now ≡ cnt + suc tasks)
      × (has_active_io (end_all (start_all (suc (suc tasks)) cnt).0 now) ≡ true)
unfolding has_active_io
block_overlap tasks cnt now h =
    let e = oldest_first (suc tasks) cnt now h in
    (newest_first (suc tasks) cnt now, e, rw e (ground arith))
