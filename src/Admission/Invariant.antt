-- ===== src/Admission/Invariant.antt =====
-- What holds of the gate of internal/api/admission.go and its callers after any steps.
use goboxd.Base.{
  ℕ, zero, suc, ◌+◌, ◌≤◌, ◌<◌, ◌≡◌, refl, ◌∙◌, ◌⊎◌, true, false, List, [], ◌∷◌, some, get_elem?,
  length, arith,
}
use goboxd.Admission.{new_gate, enter, wake, give_up, release, stop}
use goboxd.Admission.System.{
  System, drop_at, arrive, woken, gives_up, releases, stops, Step, arrives, wakes, leaves, frees,
  shuts, Reach, here, next, start,
}

-- Every channel of the list has been closed.
unfoldable pub AllClosed : ℕ → List ℕ → Type 0
AllClosed now [] = Unit
AllClosed now (b ∷ bs) = (b < now) × AllClosed now bs

-- Every channel of the list has been made.
pub AllMade : ℕ → List ℕ → Type 0
AllMade now [] = Unit
AllMade now (b ∷ bs) = (b ≤ now) × AllMade now bs

-- The counters are the callers' numbers and within their limits, and no waiter sleeps through a
-- free slot or the shutdown.
pub record Inv (s : System) : Type 0 where
  pub in_flight_exact : s.gate.in_flight ≡ s.holding
  pub queued_exact : s.gate.queued ≡ length s.waiting
  pub metrics_exact : s.gate.metrics_queued ≡ s.gate.queued
  pub in_flight_bounded : s.gate.in_flight ≤ s.gate.max_jobs
  pub queued_bounded : s.gate.queued ≤ s.gate.max_queued
  pub made : AllMade s.gate.broadcast s.waiting
  pub awake :
      ((s.gate.stopped ≡ false) × (s.gate.in_flight ≡ s.gate.max_jobs))
      ⊎ AllClosed s.gate.broadcast s.waiting

length-drop_at :
    (i : ℕ) (bs : List ℕ) {b : ℕ}
    → get_elem? bs i ≡ some b
    → suc (length (drop_at i bs)) ≡ length bs
unfolding drop_at
length-drop_at i [] e = cc
length-drop_at zero (c ∷ bs) e = refl
length-drop_at (suc i) (c ∷ bs) e = omega (arith, length-drop_at i bs e)

drop_at-AllClosed : (now i : ℕ) (bs : List ℕ) → AllClosed now bs → AllClosed now (drop_at i bs)
unfolding drop_at AllClosed
drop_at-AllClosed now i [] a = tt
drop_at-AllClosed now zero (b ∷ bs) a = a.1
drop_at-AllClosed now (suc i) (b ∷ bs) a = (a.0, drop_at-AllClosed now i bs a.1)

drop_at-AllMade : (now i : ℕ) (bs : List ℕ) → AllMade now bs → AllMade now (drop_at i bs)
unfolding drop_at AllMade
drop_at-AllMade now i [] a = tt
drop_at-AllMade now zero (b ∷ bs) a = a.1
drop_at-AllMade now (suc i) (b ∷ bs) a = (a.0, drop_at-AllMade now i bs a.1)

-- A broadcast closes every channel made so far.
AllMade-AllClosed :
    (now : ℕ) (bs : List ℕ) → AllMade now bs → AllClosed (now + 1) bs × AllMade (now + 1) bs
unfolding AllClosed AllMade
AllMade-AllClosed now [] a = (tt, tt)
AllMade-AllClosed now (b ∷ bs) a =
    let rest = AllMade-AllClosed now bs a.1 in ((omega arith, rest.0), (omega arith, rest.1))

AllClosed-empty : (now : ℕ) (bs : List ℕ) → length bs ≡ 0 → AllClosed now bs
unfolding AllClosed
AllClosed-empty now [] e = tt
AllClosed-empty now (b ∷ bs) e = absurd (omega arith)

pub start-Inv : (n m : ℕ) → Inv (start n m)
unfolding start new_gate AllClosed AllMade
start-Inv n m = ground arith

arrive-Inv : (s : System) → Inv s → Inv (arrive s)
unfolding arrive enter AllClosed AllMade
arrive-Inv s v = ground arith

woken-Inv : (i b : ℕ) (s : System) → get_elem? s.waiting i ≡ some b → Inv s → Inv (woken i s)
unfolding woken wake AllMade
woken-Inv i b s e v = ground (
  arith,
  length-drop_at i s.waiting e,
  drop_at-AllClosed s.gate.broadcast i s.waiting,
  drop_at-AllMade s.gate.broadcast i s.waiting,
)

gives_up-Inv : (i b : ℕ) (s : System) → get_elem? s.waiting i ≡ some b → Inv s → Inv (gives_up i s)
unfolding gives_up give_up
gives_up-Inv i b s e v = ground (
  arith,
  length-drop_at i s.waiting e,
  drop_at-AllClosed s.gate.broadcast i s.waiting,
  drop_at-AllMade s.gate.broadcast i s.waiting,
)

releases-Inv : (s : System) → 0 < s.holding → Inv s → Inv (releases s)
unfolding releases release
releases-Inv s h v = ground (
  arith,
  AllMade-AllClosed s.gate.broadcast s.waiting,
  AllClosed-empty s.gate.broadcast s.waiting,
)

stops-Inv : (s : System) → Inv s → Inv (stops s)
unfolding stops stop
stops-Inv s v = ground (
  arith,
  AllMade-AllClosed s.gate.broadcast s.waiting,
  AllClosed-empty s.gate.broadcast s.waiting,
)

-- Every step of any caller keeps the counters exact and bounded, and lets no waiter sleep through a
-- free slot or the shutdown.
pub Step-Inv : {s t : System} → Step s t → Inv s → Inv t
Step-Inv {s} arrives v = arrive-Inv s v
Step-Inv {s} (wakes i b e h) v = woken-Inv i b s e v
Step-Inv {s} (leaves i b e) v = gives_up-Inv i b s e v
Step-Inv {s} (frees h) v = releases-Inv s h v
Step-Inv {s} shuts v = stops-Inv s v

pub Reach-Inv : {s t : System} → Inv s → Reach s t → Inv t
Reach-Inv v here = v
Reach-Inv v (next r st) = Step-Inv st (Reach-Inv v r)

Step-limits :
    {s t : System}
    → Step s t
    → (t.gate.max_jobs ≡ s.gate.max_jobs) × (t.gate.max_queued ≡ s.gate.max_queued)
unfolding arrive woken gives_up releases stops enter wake give_up release stop
Step-limits {s} arrives = ground arith
Step-limits {s} (wakes i b e h) = ground arith
Step-limits {s} (leaves i b e) = ground arith
Step-limits {s} (frees h) = ground arith
Step-limits {s} shuts = ground arith

Reach-limits :
    {s t : System}
    → Reach s t
    → (t.gate.max_jobs ≡ s.gate.max_jobs) × (t.gate.max_queued ≡ s.gate.max_queued)
Reach-limits here = (refl, refl)
Reach-limits (next r st) =
    let a = Reach-limits r in let b = Step-limits st in (b.0 ∙ a.0, b.1 ∙ a.1)

-- Whatever the callers do from the start, at most `n` of them hold a slot and at most `m` wait, and
-- the gate's counters are those numbers.
pub start-bounded :
    (n m : ℕ) (t : System)
    → Reach (start n m) t
    → (t.holding ≤ n)
      × (length t.waiting ≤ m)
      × (t.gate.in_flight ≡ t.holding)
      × (t.gate.metrics_queued ≡ length t.waiting)
unfolding start new_gate
start-bounded n m t r =
    let v = Reach-Inv (start-Inv n m) r in
    let l = Reach-limits r in (omega arith, omega arith, omega arith, omega arith)

AllClosed-get_elem? :
    (now : ℕ) (bs : List ℕ) (i : ℕ) {b : ℕ} → AllClosed now bs → get_elem? bs i ≡ some b → b < now
unfolding AllClosed
AllClosed-get_elem? now [] i a e = cc
AllClosed-get_elem? now (c ∷ bs) zero a e = ground arith
AllClosed-get_elem? now (c ∷ bs) (suc i) a e = AllClosed-get_elem? now bs i a.1 e

-- No wake-up is lost: where a slot is free or the gate has stopped, the channel that a waiter waits on
-- has been closed, for every waiter, so that it can be woken.
pub no_lost_wakeup :
    (n m : ℕ) (t : System) (i b : ℕ)
    → Reach (start n m) t
    → (t.gate.in_flight < n) ⊎ (t.gate.stopped ≡ true)
    → get_elem? t.waiting i ≡ some b
    → (b < t.gate.broadcast) × Step t (woken i t)
unfolding start new_gate
no_lost_wakeup n m t i b r free e =
    let shut = closed (Reach-Inv (start-Inv n m) r) (Reach-limits r).0 free in
    (shut, wakes i b e shut)
  where
    closed :
        Inv t
        → t.gate.max_jobs ≡ n
        → (t.gate.in_flight < n) ⊎ (t.gate.stopped ≡ true)
        → b < t.gate.broadcast
    closed v l f = ground (
      arith,
      λ (a : AllClosed t.gate.broadcast t.waiting).
          AllClosed-get_elem? t.gate.broadcast t.waiting i {b = b} a e,
    )
