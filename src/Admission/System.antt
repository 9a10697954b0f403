-- ===== src/Admission/System.antt =====
-- The callers of the gate: any number of goroutines that enter, wait, wake, give up and release in
-- any order, and a shutdown at any time.
use goboxd.Base.{ℕ, zero, suc, ◌+◌, ◌-◌, ◌<◌, ◌≡◌, List, [], ◌∷◌, some, get_elem?}
use goboxd.Admission.{
  Gate, Turn, admitted, refused, waits, new_gate, enter, wake, give_up, release, stop,
}

-- The waiting callers, each with the channel that it waits on, and how many callers hold a slot.
pub record System : Type 0 where
  pub gate : Gate
  pub waiting : List ℕ
  pub holding : ℕ

-- The list without the entry at a place.
unfoldable pub drop_at : ℕ → List ℕ → List ℕ
drop_at i [] = []
drop_at zero (b ∷ bs) = bs
drop_at (suc i) (b ∷ bs) = b ∷ drop_at i bs

-- What the turn of a newcomer means for the callers.
newcomer : System → Gate × Turn → System
newcomer s (g, admitted) = record s { gate = g; holding = s.holding + 1 }
newcomer s (g, refused r) = record s { gate = g }
newcomer s (g, waits b) = record s { gate = g; waiting = b ∷ s.waiting }

-- A caller's first critical section.
unfoldable pub arrive : System → System
unfolding newcomer
arrive s = newcomer s (enter s.gate)

-- What the turn of the waiter at a place means for the callers.
waiter : ℕ → System → Gate × Turn → System
waiter i s (g, admitted) = record s {
  gate = g;
  holding = s.holding + 1;
  waiting = drop_at i s.waiting;
}
waiter i s (g, refused r) = record s { gate = g; waiting = drop_at i s.waiting }
waiter i s (g, waits b) = record s { gate = g; waiting = b ∷ drop_at i s.waiting }

-- The waiter at a place is woken.
unfoldable pub woken : ℕ → System → System
unfolding drop_at waiter
woken i s = waiter i s (wake s.gate)

-- The waiter at a place sees its request's context end.
unfoldable pub gives_up : ℕ → System → System
unfolding drop_at
gives_up i s = record s { gate = give_up s.gate; waiting = drop_at i s.waiting }

-- A caller that holds a slot releases it.
unfoldable pub releases : System → System
releases s = record s { gate = release s.gate; holding = s.holding - 1 }

unfoldable pub stops : System → System
stops s = record s { gate = stop s.gate }

pub data Step (s : System) : System → Type 0 where
  arrives : Step s (arrive s)
  wakes : (i b : ℕ) → get_elem? s.waiting i ≡ some b → b < s.gate.broadcast → Step s (woken i s)
  leaves : (i b : ℕ) → get_elem? s.waiting i ≡ some b → Step s (gives_up i s)
  frees : 0 < s.holding → Step s (releases s)
  shuts : Step s (stops s)

pub data Reach (s : System) : System → Type 0 where
  here : Reach s s
  next : {t u : System} → Reach s t → Step t u → Reach s u

unfoldable pub start : ℕ → ℕ → System
start n m = record { gate = new_gate n m; waiting = []; holding = 0 }
