-- ===== src/Uv/Tcp/Turns/States.antt =====
-- The states of the writes to a shared connection of librustuv/src/tcp.rs, and the steps between them.
use green_rs.Prelude.{
  ℕ, ◌+◌, ◌≡◌, refl, ap, Bool, true, false, Option, none, some, List, [], ◌∷◌, ◌++◌, Result, ok, ℤ,
  pos, arith, update, ◌==◌, ==_refl,
}
use green_rs.Uv.Access
use green_rs.Uv.Access.{Inner, Waiter}
use green_rs.Uv.Stream.{Writing, write_begin, write_end, drop_write}
use green_rs.Uv.Stream.Writes.{at}
use green_rs.Uv.Tcp.Writing.{write_granted, write_with_access, write_done}
use green_rs.Uv.Tcp.Turns.{Phase, handed, sending, told, Shared, goes_on, ends, enter, step}

-- The states that occur, up to the streams of the clones and whose writes have returned.
pub data View : Type 0 where
  is_free : View
  is_handed : (task : ℕ) → List Waiter → View
  is_sending : (task req : ℕ) → List Waiter → View
  is_told : (task req : ℕ) → ℤ → List Waiter → View

abbrev pub access_of : Bool → List Waiter → Inner (Unit {0})
access_of held queue = record { queue = queue; held = held; closed = false; value = tt }

abbrev pub inside_of : View → List Phase
inside_of is_free = []
inside_of (is_handed t q) = handed t ∷ []
inside_of (is_sending t req q) = sending t req (record { result = pos 0; task = some t }) ∷ []
inside_of (is_told t req status q) = told t req (record { result = status; task = none }) ∷ []

abbrev pub queue_of : View → List Waiter
queue_of is_free = []
queue_of (is_handed t q) = q
queue_of (is_sending t req q) = q
queue_of (is_told t req status q) = q

abbrev pub is_held : View → Bool
is_held is_free = false
is_held _ = true

abbrev pub state : View → (ℕ → Writing) → List ℕ → Shared
state v streams returned = record {
  access = access_of (is_held v) (queue_of v);
  streams = streams;
  inside = inside_of v;
  returned = returned;
}

-- The request that is not freed is on the way.
abbrev pub lent : ℕ → Writing
lent freed = record { last_write_req = none; made = freed + 1; freed = freed }

-- A stream whose request is on the way, or one that has none or has it cached.
abbrev pub Holds : Bool → Writing → Type 0
Holds true w = (freed : ℕ) × (w ≡ lent freed)
Holds false w = (cached : Option ℕ) × (freed : ℕ) × (w ≡ at cached freed)

-- Whose request is on the way.
abbrev pub lends : View → ℕ → Bool
lends is_free x = false
lends (is_handed t q) x = false
lends (is_sending t req q) x = t == x
lends (is_told t req status q) x = t == x

abbrev pub Fits : View → (ℕ → Writing) → Type 0
Fits v streams = (x : ℕ) → Holds (lends v x) (streams x)

-- A new stream for one task.
pub put-Holds :
    (b : ℕ → Bool) (streams : ℕ → Writing) (t : ℕ) (w : Writing)
    → Holds (b t) w
    → ((x : ℕ) → (t == x) ≡ false → Holds (b x) (streams x))
    → (x : ℕ) → Holds (b x) (update streams t w x)
put-Holds b streams t w h others x = by_test (t == x) refl
  where
    by_test : (c : Bool) → (t == x) ≡ c → Holds (b x) (update streams t w x)
    by_test true e = let same : t ≡ x = ground (arith, e) in rw e (rw (← same) h)
    by_test false e = rw e (others x e)

abbrev pub next : List Waiter → View
next [] = is_free
next (x ∷ q) = is_handed x.task q

next-lends : (q : List Waiter) (x : ℕ) → lends (next q) x ≡ false
next-lends [] x = refl
next-lends (y ∷ q) x = refl

next-Fits :
    (q : List Waiter) (streams : ℕ → Writing)
    → ((x : ℕ) → Holds false (streams x))
    → Fits (next q) streams
next-Fits [] streams h = h
next-Fits (y ∷ q) streams h = h

-- A task's write once it has the access: it waits for its request, or its request is refused and it
-- returns.
module _ (t : ℕ) (streams : ℕ → Writing) (returned : List ℕ)
    (rest : (x : ℕ) → Holds false (streams x)) (before : Inner (Unit {0})) where
  abbrev entered : List Waiter → Option ℤ → Writing → Shared
  entered q send w =
      enter t
        (write_granted t send (true, access_of true q)
          (record { write_access = before; stream = w }))
        (record { access = before; streams = streams; inside = []; returned = returned })

  pub granted-none :
      (q : List Waiter)
      → (streams' : ℕ → Writing) × (req : ℕ) × (entered q none (streams t)
          ≡ state (is_sending t req q) streams' returned)
        × Fits (is_sending t req q) streams'
  unfolding write_begin
  granted-none q = by_cached (rest t)
    where
      fits : (freed : ℕ) (x : ℕ) → Holds (t == x) (update streams t (lent freed) x)
      fits freed =
          put-Holds (λ x. t == x) streams t (lent freed) (rw (==_refl t) (freed, refl))
            (λ x e. rw e (rest x))

      by_cached :
          Holds false (streams t)
          → (streams' : ℕ → Writing) × (req : ℕ) × (entered q none (streams t)
              ≡ state (is_sending t req q) streams' returned)
            × Fits (is_sending t req q) streams'
      by_cached (none, freed, e) =
          (update streams t (lent freed), freed, ap (entered q none) e, fits freed)
      by_cached (some req, freed, e) =
          (update streams t (lent freed), req, ap (entered q none) e, fits freed)

  pub granted-some :
      (q : List Waiter) (code : ℤ)
      → (streams' : ℕ → Writing) × (entered q (some code) (streams t)
          ≡ state (next q) streams' (returned ++ t ∷ []))
        × Fits (next q) streams'
  unfolding write_begin drop_write Access.release Access.release_to
  granted-some q code = by_cached q (rest t)
    where
      fits : (freed : ℕ) (x : ℕ) → Holds false (update streams t (at none freed) x)
      fits freed =
          put-Holds (λ x. false) streams t (at none freed) (none, freed, refl) (λ x e. rest x)

      by_cached :
          (q : List Waiter)
          → Holds false (streams t)
          → (streams' : ℕ → Writing) × (entered q (some code) (streams t)
              ≡ state (next q) streams' (returned ++ t ∷ []))
            × Fits (next q) streams'
      by_cached [] (none, freed, e) =
          (update streams t (at none (freed + 1)), ap (entered [] (some code)) e, fits (freed + 1))
      by_cached [] (some req, freed, e) =
          (update streams t (at none (freed + 1)), ap (entered [] (some code)) e, fits (freed + 1))
      by_cached (x ∷ q) (none, freed, e) = (
        update streams t (at none (freed + 1)),
        ap (entered (x ∷ q) (some code)) e,
        fits (freed + 1),
      )
      by_cached (x ∷ q) (some req, freed, e) = (
        update streams t (at none (freed + 1)),
        ap (entered (x ∷ q) (some code)) e,
        fits (freed + 1),
      )

-- A write that ends, on some stream of its clone.
abbrev ending : (t req : ℕ) → ℤ → (ℕ → Writing) → List ℕ → List Waiter → Writing → Result Shared
ending t req status streams returned q w = ok (
    enter t
      (write_done req (record { result = status; task = none })
        (record { write_access = access_of true q; stream = w }))
      (record { access = access_of true q; streams = streams; inside = []; returned = returned }))

-- The end of a write: its request is cached, and the access goes on.
pub ended :
    (t req : ℕ) (status : ℤ) (q : List Waiter) (streams : ℕ → Writing) (returned : List ℕ)
    → Fits (is_told t req status q) streams
    → (streams' : ℕ → Writing) × (step ends (state (is_told t req status q) streams returned)
        ≡ ok (state (next q) streams' (returned ++ t ∷ [])))
      × Fits (next q) streams'
unfolding step write_done write_end Access.release Access.release_to
ended t req status q streams returned h = by_queue q (rw (==_refl t) at (h t))
  where
    rest_of : (x : ℕ) → (t == x) ≡ false → Holds false (streams x)
    rest_of x e = rw e at (h x)

    fits : (freed : ℕ) (x : ℕ) → Holds false (update streams t (at (some req) freed) x)
    fits freed =
        put-Holds (λ x. false) streams t (at (some req) freed) (some req, freed, refl) rest_of

    by_queue :
        (q : List Waiter)
        → Holds true (streams t)
        → (streams' : ℕ → Writing) × (step ends (state (is_told t req status q) streams returned)
            ≡ ok (state (next q) streams' (returned ++ t ∷ [])))
          × Fits (next q) streams'
    by_queue [] (freed, e) = (
      update streams t (at (some req) freed),
      ap (ending t req status streams returned []) e,
      fits freed,
    )
    by_queue (x ∷ q) (freed, e) = (
      update streams t (at (some req) freed),
      ap (ending t req status streams returned (x ∷ q)) e,
      fits freed,
    )

-- A task with the access that goes on.
pub gone_on :
    (t : ℕ) (q : List Waiter) (streams : ℕ → Writing) (returned : List ℕ)
    → Fits (is_handed t q) streams
    → (streams' : ℕ → Writing) × (req : ℕ) × (step
          (goes_on none)
          (state (is_handed t q) streams returned)
        ≡ ok (state (is_sending t req q) streams' returned))
      × Fits (is_sending t req q) streams'
unfolding step write_with_access Access.regrant
gone_on t q streams returned h =
    let (streams', req, e, fits) = granted-none t streams returned h (access_of true q) q in
    (streams', req, ap ok e, fits)
