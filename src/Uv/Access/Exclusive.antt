-- ===== src/Uv/Access/Exclusive.antt =====
-- Sequences of requests for the `Access` of librustuv/src/access.rs and drops of its guards.
use mathlib.Core.List.{append-nil, append_assoc}
use green_rs.Prelude.{
  ℕ, ◌≡◌, refl, Bool, true, false, List, [], ◌∷◌, ◌++◌, Option, none, some, arith,
}
use green_rs.Uv.Access.{Inner, Waiter, grant, release}

-- A request with its token, or the drop of the guard that has been held longest.
pub data Op : Type 0 where
  asks : ℕ → ℕ → Op
  drops : Op

-- The access, the tasks that hold a guard, and all that have been given one, the last one last.
pub record Use {ℓ} (A : Type ℓ) : Type ℓ where
  pub inner : Inner A
  pub holders : List ℕ
  pub served : List ℕ

abbrev granted : ℕ → Bool → List ℕ
granted task true = task ∷ []
granted task false = []

abbrev handed : Option ℕ → List ℕ
handed none = []
handed (some task) = task ∷ []

module _ {ℓ} {A : Type ℓ} where
  -- A drop where nobody holds a guard does not occur and changes nothing.
  pub step : Use A → Op → Use A
  step u (asks task token) =
      let (now, i) = grant task token u.inner in
      record {
        inner = i;
        holders = u.holders ++ granted task now;
        served = u.served ++ granted task now;
      }
  step u drops = elim u.holders [
    | [] ↦ u
    | holder ∷ others ↦
        let (woken, i) = release u.inner in
        record { inner = i; holders = others ++ handed woken; served = u.served ++ handed woken }
  ]

  pub run : Use A → List Op → Use A
  run u [] = u
  run u (o ∷ ops) = run (step u o) ops

abbrev pub asked : List Op → List ℕ
asked [] = []
asked (asks task _ ∷ ops) = task ∷ asked ops
asked (drops ∷ ops) = asked ops

abbrev pub waiting : List Waiter → List ℕ
waiting [] = []
waiting (x ∷ rest) = x.task ∷ waiting rest

-- The flag tells whether there is a guard, there is never a second one, and tasks wait only for one.
pub data IsExclusive {ℓ} {A : Type ℓ} : Use A → Type ℓ where
  free : {u : Use A} → u.inner.held ≡ false → u.holders ≡ [] → u.inner.queue ≡ [] → IsExclusive u
  taken : {u : Use A} (task : ℕ) → u.inner.held ≡ true → u.holders ≡ task ∷ [] → IsExclusive u

pub waiting-append :
    (xs : List Waiter) (x : Waiter) → waiting (xs ++ x ∷ []) ≡ waiting xs ++ x.task ∷ []
waiting-append [] x = refl
waiting-append (y ∷ xs) x = rw (waiting-append xs x)

abbrev asked_by : Op → List ℕ
asked_by (asks task _) = task ∷ []
asked_by drops = []

asked-cons : (o : Op) (ops : List Op) → asked (o ∷ ops) ≡ asked_by o ++ asked ops
asked-cons (asks task token) ops = refl
asked-cons drops ops = refl

module _ {ℓ} {A : Type ℓ} where
  step-IsExclusive : (u : Use A) (o : Op) → IsExclusive u → IsExclusive (step u o)
  unfolding step grant release
  step-IsExclusive u (asks task token) (free h e q) =
      taken task (ground (arith, h)) (ground (arith, h, e))
  step-IsExclusive u (asks task token) (taken holder h e) =
      taken holder (ground (arith, h)) (ground (arith, h, e))
  step-IsExclusive u drops (free h e q) =
      free (ground (arith, h, e)) (ground (arith, e)) (ground (arith, e, q))
  step-IsExclusive u drops (taken holder h e) = by_queue u.inner.queue refl
    where
      by_queue : (xs : List Waiter) → u.inner.queue ≡ xs → IsExclusive (step u drops)
      by_queue [] q = free (ground (arith, e, q)) (ground (arith, e, q)) (ground (arith, e, q))
      by_queue (x ∷ xs) q = taken x.task (ground (arith, e, q, h)) (ground (arith, e, q))

  -- What has been served, and then what waits.
  abbrev pub line : Use A → List ℕ
  line u = u.served ++ waiting u.inner.queue

  step_lem : (u : Use A) (o : Op) → IsExclusive u → line (step u o) ≡ line u ++ asked_by o
  unfolding step grant release
  step_lem u (asks task token) (free h e q) =
      ground (arith, h, e, q, append-nil u.served, append-nil (u.served ++ task ∷ []))
  step_lem u (asks task token) (taken holder h e) = ground (
    arith,
    h,
    append-nil u.served,
    append_assoc u.served (waiting u.inner.queue) (task ∷ []),
    waiting-append u.inner.queue (record { task = task; token = token }),
  )
  step_lem u drops (free h e q) = rw (e, step, append-nil (line u)) refl
  step_lem u drops (taken holder h e) = by_queue u.inner.queue refl
    where
      by_queue : (xs : List Waiter) → u.inner.queue ≡ xs → line (step u drops) ≡ line u ++ []
      by_queue [] q = ground (arith, e, q, append-nil u.served)
      by_queue (x ∷ xs) q =
          ground
            (arith, e, q, append_assoc u.served (x.task ∷ []) (waiting xs), append-nil (line u))

  -- Whatever requests and drops follow one another, from a free access on: there is one guard while
  -- the access is held and none otherwise, nobody waits for a free access, and the tasks are served
  -- in the order of their requests, none of which is lost.
  pub run-IsExclusive :
      (u : Use A) (ops : List Op)
      → IsExclusive u
      → IsExclusive (run u ops) × (line (run u ops) ≡ line u ++ asked ops)
  unfolding run
  run-IsExclusive u [] h = (h, simp append-nil)
  run-IsExclusive u (o ∷ ops) h =
      let (kept, e) = run-IsExclusive (step u o) ops (step-IsExclusive u o h) in
      (kept, rw (e, step_lem u o h, append_assoc, asked-cons o ops) refl)
