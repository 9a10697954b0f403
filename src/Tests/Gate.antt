-- ===== src/Tests/Gate.antt =====
-- The uid pool and the admission gate, internal/uidpool/uidpool.go and internal/api/admission.go, on
-- small inputs.
use goboxd.Base.{
  ℕ, ◌+◌, ◌≤◌, ◌<◌, ◌≡◌, ◌↔◌, refl, inl, true, false, [], ◌∷◌, none, some, length, get_elem?, arith,
}
use goboxd.UidPool.{Pool, held, alloc}
use goboxd.UidPool.Alloc.{IsValid, InRange, Allocated, alloc_sound, alloc-eq-none_iff}
use goboxd.Admission.{new_gate, enter, release, stop}
use goboxd.Admission.System.{
  System, Step, arrives, frees, shuts, Reach, here, next, start, arrive, woken, releases, stops,
}
use goboxd.Admission.Invariant.{start-bounded, no_lost_wakeup}
use goboxd.Admission.Shutdown.{Drains, stopped-drains}

-- A pool of two uids, one of them held.
abbrev two_uids : Pool
two_uids = record { min = 10000; size = 2; in_use = 10000 ∷ []; next = 1 }

two_uids-IsValid : IsValid two_uids
unfolding InRange
two_uids-IsValid = record {
  nonempty = omega arith;
  next_lt = omega arith;
  in_range = ((omega arith, omega arith), tt);
}

spare : held 10001 two_uids.in_use ≡ false
unfolding held
spare = refl

alloc_sound_example :
    (uid : ℕ) × (q : Pool) × (alloc two_uids ≡ some (uid, q)) × Allocated two_uids uid q × IsValid q
alloc_sound_example = alloc_sound two_uids 10001 two_uids-IsValid (omega arith) (omega arith) spare

alloc-eq-none_example :
    (alloc two_uids ≡ none)
    ↔ ((uid : ℕ) → 10000 ≤ uid → uid < 10000 + 2 → held uid (10000 ∷ []) ≡ true)
alloc-eq-none_example = alloc-eq-none_iff two_uids two_uids-IsValid

-- One job in flight and one request in the queue.
abbrev one_waits : System
one_waits = arrive (arrive (start 1 1))

one_waits-Reach : Reach (start 1 1) one_waits
one_waits-Reach = next (next here arrives) arrives

start-bounded_example :
    (one_waits.holding ≤ 1)
    × (length one_waits.waiting ≤ 1)
    × (one_waits.gate.in_flight ≡ one_waits.holding)
    × (one_waits.gate.metrics_queued ≡ length one_waits.waiting)
start-bounded_example = start-bounded 1 1 one_waits one_waits-Reach

one_freed-Reach : Reach (start 1 1) (releases one_waits)
unfolding start new_gate arrive enter
one_freed-Reach = next one_waits-Reach (frees (omega arith))

slot_free : (releases one_waits).gate.in_flight < 1
unfolding start new_gate arrive enter releases release
slot_free = omega arith

one_waiter : get_elem? (releases one_waits).waiting 0 ≡ some 0
unfolding start new_gate arrive enter releases release
one_waiter = refl

no_lost_wakeup_example :
    (0 < (releases one_waits).gate.broadcast)
    × Step (releases one_waits) (woken 0 (releases one_waits))
no_lost_wakeup_example =
    no_lost_wakeup 1 1 (releases one_waits) 0 0 one_freed-Reach (inl slot_free) one_waiter

stopped : (stops one_waits).gate.stopped ≡ true
unfolding stops stop arrive enter start new_gate
stopped = refl

stopped-drains_example :
    (t : System) × Drains (stops one_waits) t × (t.gate.in_flight ≡ 0) × (t.gate.queued ≡ 0)
stopped-drains_example = stopped-drains 1 1 (stops one_waits) (next one_waits-Reach shuts) stopped
