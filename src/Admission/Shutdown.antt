-- ===== src/Admission/Shutdown.antt =====
-- The gate of internal/api/admission.go after `Stop`.
use goboxd.Base.{
  ℕ, zero, suc, ◌<◌, ◌≡◌, refl, true, List, [], ◌∷◌, length, arith, subst, some, get_elem?, ap, inl,
  inr,
}
use goboxd.Admission.{wake, refused, shutting_down}
use goboxd.Admission.System.{
  System, drop_at, woken, releases, wakes, frees, Reach, here, next, start,
}
use goboxd.Admission.Invariant.{Inv, Step-Inv, Reach-Inv, AllClosed, start-Inv}

-- How the callers of a stopped gate end by themselves: the first waiter sees its channel closed and is
-- refused because of the shutdown, or, once nobody waits, a slot is released. Nobody arrives or gives
-- up.
pub data Drains (s : System) : System → Type 0 where
  drained : Drains s s
  refuses :
      {t : System}
      → Drains s t
      → (b : ℕ) → get_elem? t.waiting 0 ≡ some b
      → b < t.gate.broadcast
      → (wake t.gate).1 ≡ refused shutting_down
      → Drains s (woken 0 t)
  finishes : {t : System} → Drains s t → t.waiting ≡ [] → 0 < t.holding → Drains s (releases t)

Drains-Reach : {s t : System} → Drains s t → Reach s t
Drains-Reach drained = here
Drains-Reach (refuses d b e lt r) = next (Drains-Reach d) (wakes 0 b e lt)
Drains-Reach (finishes d w lt) = next (Drains-Reach d) (frees lt)

stopped-AllClosed :
    (s : System) → Inv s → s.gate.stopped ≡ true → AllClosed s.gate.broadcast s.waiting
stopped-AllClosed s v h = elim v.awake [ inl open_gate ↦ cc (open_gate.0, h) | inr a ↦ a ]

AllClosed-head : (now b : ℕ) (bs : List ℕ) → AllClosed now (b ∷ bs) → b < now
unfolding AllClosed
AllClosed-head now b bs a = a.0

-- After a stop the first waiter can be woken, and leaves the queue.
woken-stopped :
    (s : System) (b : ℕ) (bs : List ℕ)
    → Inv s
    → s.gate.stopped ≡ true
    → s.waiting ≡ b ∷ bs
    → (b < s.gate.broadcast)
      × ((woken 0 s).waiting ≡ bs)
      × ((woken 0 s).gate.stopped ≡ true)
      × ((wake s.gate).1 ≡ refused shutting_down)
unfolding woken wake drop_at
woken-stopped s b bs v h e =
    (closed (subst (AllClosed s.gate.broadcast) e all), ground arith, ground arith, ground arith)
  where
    all : AllClosed s.gate.broadcast s.waiting
    all = stopped-AllClosed s v h

    closed : AllClosed s.gate.broadcast (b ∷ bs) → b < s.gate.broadcast
    closed a = AllClosed-head s.gate.broadcast b bs a

drain_waiting :
    (bs : List ℕ) (s t : System)
    → Drains s t
    → Inv t
    → t.gate.stopped ≡ true
    → t.waiting ≡ bs
    → (u : System) × Drains s u × (u.waiting ≡ [])
drain_waiting [] s t d v h e = (t, d, e)
drain_waiting (b ∷ bs) s t d v h e =
    let (lt, w, stopped, shut) = woken-stopped t b bs v h e in
    let first : get_elem? t.waiting 0 ≡ some b = rw e refl in
    drain_waiting bs s (woken 0 t) (refuses d b first lt shut) (Step-Inv (wakes 0 b first lt) v)
      stopped w

drain_holding :
    (n : ℕ) (s t : System)
    → Drains s t
    → t.waiting ≡ []
    → t.holding ≡ n
    → (u : System) × Drains s u × (u.waiting ≡ []) × (u.holding ≡ 0)
unfolding releases
drain_holding zero s t d w e = (t, d, w, e)
drain_holding (suc n) s t d w e =
    drain_holding n s (releases t) (finishes d w (omega arith)) w (omega arith)

-- After a stop the gate empties although nobody arrives or gives up: before any slot is released, one
-- after the other the waiters see their channels closed and are refused because of the shutdown; then
-- the slots are released, and nothing is in flight and nobody queued.
pub stopped-drains :
    (n m : ℕ) (s : System)
    → Reach (start n m) s
    → s.gate.stopped ≡ true
    → (t : System) × Drains s t × (t.gate.in_flight ≡ 0) × (t.gate.queued ≡ 0)
stopped-drains n m s r h =
    let v = Reach-Inv (start-Inv n m) r in
    let (t, d, no_wait) = drain_waiting s.waiting s s drained v h refl in
    let (u, d', no_wait', none_left) = drain_holding t.holding s t d no_wait refl in
    let w = Reach-Inv v (Drains-Reach d') in (u, d', omega arith, omega (arith, ap length no_wait'))
