-- ===== src/Uv/Handles/Owned.antt =====
-- A handle of libuv lives as long as it has owners.
use mathlib.Core.Path.{subst}
use native.Mathlib.Decide.{dec_lt}
use green_rs.Prelude.{
  false, ==_iff, ==_refl, ◌≢◌, ◌∙◌, sym, ℕ, zero, suc, ◌≤◌, ◌<◌, ◌≡◌, refl, inl, inr, Option, none,
  some, Result, ok, then_ok, update, ◌==◌, Bool-cases, arith, ℤ,
}
use green_rs.Uv.Stream.{UvResult, uv_ok, uv_err}
use green_rs.Uv.Handles.{
  Life, absent, live, closing, freed, Handles, no_handles, raw_new, close_and_free, done,
  drop_owner, create, return_or_drop, created_then, open_on, connect_on, bind_on, listen, accept,
  clone,
}

-- A live handle has owners, and no other has any.
abbrev pub Fits : Life → ℕ → Type 0
Fits absent n = n ≡ 0
Fits live n = 0 < n
Fits closing n = n ≡ 0
Fits freed n = n ≡ 0

pub record IsOwned (hs : Handles) : Type 0 where
  pub fits : (h : ℕ) → Fits (hs.life h) (hs.owners h)
  pub fresh : (h : ℕ) → hs.next ≤ h → hs.life h ≡ absent

-- What a program and libuv do to handles; a program names those that it owns.
pub data Command : Type 0 where
  opens connects binds accepts : (init failed : Option ℤ) → Command
  listens : (failed : Option ℤ) → ℕ → Command
  clones drops finishes : ℕ → Command

abbrev pub Allowed : Command → Handles → Type 0
Allowed (opens _ _) hs = Unit
Allowed (connects _ _) hs = Unit
Allowed (binds _ _) hs = Unit
Allowed (accepts _ _) hs = Unit
Allowed (listens _ h) hs = 0 < hs.owners h
Allowed (clones h) hs = 0 < hs.owners h
Allowed (drops h) hs = 0 < hs.owners h
Allowed (finishes h) hs = hs.life h ≡ closing

abbrev after : Result (UvResult ℕ × Handles) → Result Handles
after r = then_ok r (λ (_, hs). ok hs)

unfoldable pub step : Command → Handles → Result Handles
unfolding open_on connect_on bind_on accept listen clone drop_owner done
step (opens init failed) hs = after (open_on init failed hs)
step (connects init failed) hs = after (connect_on init failed hs)
step (binds init failed) hs = after (bind_on init failed hs)
step (accepts init failed) hs = after (accept init failed hs)
step (listens failed h) hs = after (listen failed h hs)
step (clones h) hs = ok (clone h hs)
step (drops h) hs = drop_owner h hs
step (finishes h) hs = done h hs

pub data Reach : Handles → Type 0 where
  start : Reach no_handles
  then_step :
      {hs hs' : Handles} (c : Command) → Reach hs → Allowed c hs → step c hs ≡ ok hs' → Reach hs'

ok-injective : {a b : Handles} → ok a ≡ ok b → a ≡ b
ok-injective e = cc

-- The step has an outcome, and it keeps the invariant.
abbrev Keeps : Result Handles → Type 0
Keeps r = (hs' : Handles) × (r ≡ ok hs') × IsOwned hs'

module _ {hs : Handles} (owned : IsOwned hs) where
  -- A change of one handle.
  changed-IsOwned :
      (h : ℕ) (hs' : Handles)
      → ((j : ℕ) → (h == j) ≡ false → (hs'.life j ≡ hs.life j) × (hs'.owners j ≡ hs.owners j))
      → Fits (hs'.life h) (hs'.owners h)
      → hs.next ≤ hs'.next
      → h < hs'.next
      → IsOwned hs'
  changed-IsOwned h hs' same fit more within = record {
    fits = λ j. elim (Bool-cases (h == j)) [
      | inl e ↦ subst (λ k. Fits (hs'.life k) (hs'.owners k)) ((==_iff h j).0 e) fit
      | inr e ↦ rw (same j e).0 (rw (same j e).1 (owned.fits j))
    ];
    fresh = λ j beyond. elim (Bool-cases (h == j)) [
      | inl e ↦ absurd (omega (arith, (==_iff h j).0 e, within, beyond))
      | inr e ↦ (same j e).0 ∙ owned.fresh j (omega (arith, more, beyond))
    ];
  }

  -- What is not fresh is below the next allocation.
  known : (h : ℕ) → hs.life h ≢ absent → h < hs.next
  known h e = elim (dec_lt h hs.next) [
    | yes lt ↦ lt
    | no beyond ↦ absurd (e (owned.fresh h (omega (arith, beyond))))
  ]

  owned-live : (h : ℕ) → 0 < hs.owners h → hs.life h ≡ live
  owned-live h pos = by_life (hs.life h) (owned.fits h)
    where
      by_life : (l : Life) → Fits l (hs.owners h) → l ≡ live
      by_life absent e = absurd (omega (arith, e, pos))
      by_life live e = refl
      by_life closing e = absurd (omega (arith, e, pos))
      by_life freed e = absurd (omega (arith, e, pos))

  live-known : (h : ℕ) → 0 < hs.owners h → h < hs.next
  live-known h pos = known h (λ e. cc (owned-live h pos))

  drop_owner-IsOwned : (h : ℕ) → 0 < hs.owners h → Keeps (drop_owner h hs)
  unfolding drop_owner close_and_free
  drop_owner-IsOwned h pos = by_count (hs.owners h) refl
    where
      by_count : (n : ℕ) → hs.owners h ≡ n → Keeps (drop_owner h hs)
      by_count zero e = absurd (omega (arith, e, pos))
      by_count (suc zero) e = (
        record hs { life = update hs.life h closing; owners = update hs.owners h 0 },
        rw (e, drop_owner) (rw (owned-live h pos) refl),
        changed-IsOwned h _ (λ j d. (rw d refl, rw d refl)) (rw (==_refl h) refl) (omega arith)
            (live-known h pos),
      )
      by_count (suc (suc n)) e = (
        record hs { owners = update hs.owners h (suc n) },
        rw (e, drop_owner) refl,
        changed-IsOwned h _ (λ j d. (refl, rw d refl))
            (rw (==_refl h) (rw (owned-live h pos) (omega arith))) (omega arith) (live-known h pos),
      )

  done-IsOwned : (h : ℕ) → hs.life h ≡ closing → Keeps (done h hs)
  unfolding done
  done-IsOwned h e = (
    record hs { life = update hs.life h freed },
    rw (e, done) refl,
    changed-IsOwned h _ (λ j d. (rw d refl, refl))
        (rw (==_refl h) (subst (λ l. Fits l (hs.owners h)) e (owned.fits h))) (omega arith)
        (known h (λ a. cc)),
  )

  clone-IsOwned : (h : ℕ) → 0 < hs.owners h → IsOwned (clone h hs)
  unfolding clone
  clone-IsOwned h pos =
      changed-IsOwned h _ (λ j d. (refl, rw d refl))
        (rw (==_refl h) (rw (owned-live h pos) (omega arith))) (omega arith) (live-known h pos)

  -- A handle that has been made, with its owner, or none.
  Made : UvResult ℕ × Handles → Type 0
  Made (uv_ok h, hs') = IsOwned hs' × (0 < hs'.owners h)
  Made (uv_err e, hs') = IsOwned hs'

  create-Made : (init : Option ℤ) → Made (create init hs)
  unfolding create raw_new Made
  create-Made none = (
    changed-IsOwned hs.next _ (λ j d. (rw d refl, rw d refl)) (rw (==_refl hs.next) (omega arith))
        (omega arith) (omega arith),
    rw (==_refl hs.next) (omega arith),
  )
  create-Made (some e) =
      changed-IsOwned hs.next _ (λ j d. (rw d refl, refl)) (rw (==_refl hs.next) unowned)
        (omega arith) (omega arith)
    where
      unowned : hs.owners hs.next ≡ 0
      unowned =
          subst (λ l. Fits l (hs.owners hs.next)) (owned.fresh hs.next (omega arith))
            (owned.fits hs.next)

module _ {hs : Handles} (owned : IsOwned hs) where
  listen-IsOwned :
      (failed : Option ℤ) (h : ℕ) → 0 < hs.owners h → Keeps (after (return_or_drop failed h hs))
  listen-IsOwned none h pos = (hs, refl, owned)
  listen-IsOwned (some e) h pos =
      let (hs', same, owned') = drop_owner-IsOwned owned h pos in (hs', rw same refl, owned')

created_then-IsOwned :
    {hs : Handles} (owned : IsOwned hs) (failed : Option ℤ) (r : UvResult ℕ × Handles)
    → Made owned r
    → Keeps (after (created_then failed r))
unfolding Made
created_then-IsOwned owned failed (uv_ok h, hs') m = listen-IsOwned m.0 failed h m.1
created_then-IsOwned owned failed (uv_err e, hs') m = (hs', refl, m)

step-IsOwned : {hs : Handles} → IsOwned hs → (c : Command) → Allowed c hs → Keeps (step c hs)
unfolding step
step-IsOwned owned (opens init failed) a =
    created_then-IsOwned owned failed (create init _) (create-Made owned init)
step-IsOwned owned (connects init failed) a =
    created_then-IsOwned owned failed (create init _) (create-Made owned init)
step-IsOwned owned (binds init failed) a =
    created_then-IsOwned owned failed (create init _) (create-Made owned init)
step-IsOwned owned (accepts init failed) a =
    created_then-IsOwned owned failed (create init _) (create-Made owned init)
step-IsOwned owned (listens failed h) a = listen-IsOwned owned failed h a
step-IsOwned owned (clones h) a = (_, refl, clone-IsOwned owned h a)
step-IsOwned owned (drops h) a = drop_owner-IsOwned owned h a
step-IsOwned owned (finishes h) a = done-IsOwned owned h a

Reach-IsOwned : {hs : Handles} → Reach hs → IsOwned hs
unfolding no_handles
Reach-IsOwned start = record { fits = λ h. refl; fresh = λ h le. refl }
Reach-IsOwned (then_step c r a e) = same_result (step-IsOwned (Reach-IsOwned r) c a) e
  where
    same_result : {r : Result Handles} {hs' : Handles} → Keeps r → r ≡ ok hs' → IsOwned hs'
    same_result (t, same, owned) e = subst IsOwned (ok-injective (sym same ∙ e)) owned

-- However handles are opened, connected, bound, listened on, accepted, shared and dropped, by a program
-- that names only those that it owns, and whatever libuv answers: each handle is live while it has
-- owners and closing or freed, or not made yet, when it has none; and whatever may be done next does not
-- fail, so that none is closed twice or used after it is freed.
pub Reach-Owned :
    {hs : Handles}
    → Reach hs
    → ((h : ℕ) → Fits (hs.life h) (hs.owners h))
      × ((c : Command) → Allowed c hs → (hs' : Handles) × (step c hs ≡ ok hs'))
Reach-Owned r =
    ((Reach-IsOwned r).fits, λ c a. let k = step-IsOwned (Reach-IsOwned r) c a in (k.0, k.1))
