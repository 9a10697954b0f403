-- ===== src/UidPool/Alloc.antt =====
-- `Alloc` and `Release` of internal/uidpool/uidpool.go, and the pools they keep valid.
use native.Mathlib.Nat.{mod-lt, mod-eq_of_lt, add-mod_right}
use native.Mathlib.Decide.{dec_le}
use goboxd.Base.{
  ℕ, zero, suc, ◌+◌, ◌-◌, ◌%◌, ◌^◌, ◌≤◌, ◌<◌, ◌≡◌, ◌↔◌, refl, sym, ap, ◌∙◌, inl, inr, true, false,
  ◌||◌, List, [], ◌∷◌, Option, none, some, ltb, ◌==◌, length, if◌then◌else◌, arith, Bool-cases, All,
  Option-cases, max_int, wrap_int64, wrap_int64-pos, pos, leb_ℤ,
}
use goboxd.UidPool.{Pool, new, held, delete, candidate, alloc_from, alloc, release}

unfoldable pub InRange : ℕ → ℕ → List ℕ → Type 0
InRange lo hi us = All (λ u. (lo ≤ u) × (u < hi)) us

-- The uids in use are uids of the pool, and the next round starts inside it.
pub record IsValid (p : Pool) : Type 0 where
  pub nonempty : 0 < p.size
  pub next_lt : p.next < p.size
  pub in_range : InRange p.min (p.min + p.size) p.in_use

candidate_range :
    (p : Pool) (i : ℕ) → 0 < p.size → (p.min ≤ candidate p i) × (candidate p i < p.min + p.size)
candidate_range p i h =
    let m : (p.next + i) % p.size < p.size = mod-lt (p.next + i) h in (omega arith, omega arith)

-- What a successful `Alloc` returns.
pub record Allocated (p : Pool) (uid : ℕ) (q : Pool) : Type 0 where
  pub from_pool : (p.min ≤ uid) × (uid < p.min + p.size)
  pub was_free : held uid p.in_use ≡ false
  pub taken : q.in_use ≡ uid ∷ p.in_use
  pub same_range : (q.min ≡ p.min) × (q.size ≡ p.size)
  pub next_lt : q.next < q.size

alloc_from_sound :
    (rounds i : ℕ) (p : Pool) {uid : ℕ} {q : Pool}
    → 0 < p.size
    → alloc_from rounds i p ≡ some (uid, q)
    → Allocated p uid q
unfolding alloc_from
alloc_from_sound zero i p h e = cc
alloc_from_sound (suc k) i p {uid} {q} h e = elim (Bool-cases (held (candidate p i) p.in_use)) [
  | inl used ↦ alloc_from_sound k (suc i) p h (rw (used, alloc_from) at e)
  | inr free ↦
      let e' : ◌≡◌ {A = Option (ℕ × Pool)}
          (some (
            candidate p i,
            record p { in_use = candidate p i ∷ p.in_use; next = (p.next + i + 1) % p.size },
          ))
          (some (uid, q)) =
        rw (free, alloc_from) at e in
      let same : candidate p i ≡ uid = cc in
      let result : ◌≡◌ {A = Pool}
          (record p { in_use = candidate p i ∷ p.in_use; next = (p.next + i + 1) % p.size }) q =
        cc in
      rw (← result, ← same)
        (record {
          from_pool = candidate_range p i h;
          was_free = free;
          taken = refl;
          same_range = (refl, refl);
          next_lt = mod-lt (p.next + i + 1) h;
        })
]

-- A loop that fails has tried its candidates in vain.
alloc_from-none :
    (rounds i : ℕ) (p : Pool)
    → alloc_from rounds i p ≡ none
    → (j : ℕ) → j < rounds
    → held (candidate p (i + j)) p.in_use ≡ true
unfolding alloc_from
alloc_from-none zero i p e j lt = absurd (omega arith)
alloc_from-none (suc k) i p e j lt = elim (Bool-cases (held (candidate p i) p.in_use)) [
  | inr free ↦ absurd (ground arith)
  | inl used ↦
      let rest : alloc_from k (suc i) p ≡ none = rw (used, alloc_from) at e in
      here-or-later j lt (alloc_from-none k (suc i) p rest) used
]
  where
    here-or-later :
        (j : ℕ)
        → j < suc k
        → ((m : ℕ) → m < k → held (candidate p (suc i + m)) p.in_use ≡ true)
        → held (candidate p i) p.in_use ≡ true
        → held (candidate p (i + j)) p.in_use ≡ true
    here-or-later zero lt later here = let z : i + 0 ≡ i = omega arith in rw z here
    here-or-later (suc m) lt later here =
        let z : i + suc m ≡ suc i + m = omega arith in rw z (later m (omega arith))

-- Every uid of the pool is the candidate of some round.
round_of :
    (p : Pool) (u : ℕ)
    → p.next < p.size
    → u < p.size
    → (j : ℕ) × (j < p.size) × (candidate p j ≡ p.min + u)
round_of p u n h = elim (dec_le p.next u) [
  | yes le ↦ (
    u - p.next,
    omega arith,
    (let e : p.next + (u - p.next) ≡ u = omega arith in rw (e, mod-eq_of_lt h)),
  )
  | no gt ↦ (
    u + p.size - p.next,
    omega arith,
    (let e : p.next + (u + p.size - p.next) ≡ u + p.size = omega arith in
        rw (e, add-mod_right u p.size, mod-eq_of_lt h)),
  )
]

held-delete : (u v : ℕ) (xs : List ℕ) → held v (delete u xs) ≡ (if u == v then false else held v xs)
unfolding held delete
held-delete u v [] = ground arith
held-delete u v (x ∷ xs) = ground (arith, held-delete u v xs)

length-delete-le : (u : ℕ) (xs : List ℕ) → length (delete u xs) ≤ length xs
unfolding delete
length-delete-le u [] = omega arith
length-delete-le u (x ∷ xs) = ground (arith, length-delete-le u xs)

length-delete-lt : (u : ℕ) (xs : List ℕ) → held u xs ≡ true → length (delete u xs) < length xs
unfolding held delete
length-delete-lt u [] h = cc
length-delete-lt u (x ∷ xs) h = ground (arith, length-delete-le u xs, length-delete-lt u xs)

-- A list that holds `n` consecutive uids is at least that long.
le-length_of_held :
    (n m : ℕ) (xs : List ℕ) → ((u : ℕ) → u < n → held (m + u) xs ≡ true) → n ≤ length xs
le-length_of_held zero m xs h = omega arith
le-length_of_held (suc n) m xs h = omega (
  arith,
  length-delete-lt (m + n) xs (h n (omega arith)),
  le-length_of_held n m (delete (m + n) xs)
      (λ u lt. held-delete (m + n) (m + u) xs ∙ ground (arith, h u)),
)

InRange-cons :
    (lo hi u : ℕ) (us : List ℕ) → (lo ≤ u) × (u < hi) → InRange lo hi us → InRange lo hi (u ∷ us)
unfolding InRange
InRange-cons lo hi u us h hs = (h, hs)

-- What a valid pool hands out nobody holds, and it stays valid.
pub alloc-Allocated :
    (p : Pool) {uid : ℕ} {q : Pool}
    → IsValid p
    → alloc p ≡ some (uid, q)
    → Allocated p uid q × IsValid q
unfolding alloc
alloc-Allocated p {uid} {q} v e =
    let a = alloc_from_sound p.size 0 p v.nonempty e in
    (
      a,
      record {
        nonempty = omega arith;
        next_lt = a.next_lt;
        in_range =
            rw (a.taken, a.same_range.0, a.same_range.1)
              (InRange-cons p.min (p.min + p.size) uid p.in_use a.from_pool v.in_range);
      },
    )

-- `Alloc` fails exactly when every uid of the range is held.
pub alloc-eq-none_iff :
    (p : Pool)
    → IsValid p
    → (alloc p ≡ none) ↔ ((uid : ℕ) → p.min ≤ uid → uid < p.min + p.size → held uid p.in_use ≡ true)
unfolding alloc
alloc-eq-none_iff p v = (all_held, none_left)
  where
    all_held :
        alloc p ≡ none → (uid : ℕ) → p.min ≤ uid → uid < p.min + p.size → held uid p.in_use ≡ true
    all_held e uid lo hi =
        let (j, lt, c) = round_of p (uid - p.min) v.next_lt (omega arith) in
        let at : candidate p j ≡ uid = c ∙ omega arith in
        let z : 0 + j ≡ j = omega arith in
        ap (λ k. held k p.in_use) (sym at) ∙ (rw z at (alloc_from-none p.size 0 p e j lt))

    none_left :
        ((uid : ℕ) → p.min ≤ uid → uid < p.min + p.size → held uid p.in_use ≡ true) → alloc p ≡ none
    none_left all = elim (Option-cases (alloc_from p.size 0 p)) [
      | inl e ↦ e
      | inr ((u, q), e) ↦
          let a = alloc_from_sound p.size 0 p v.nonempty e in
          cc (a.was_free, all u a.from_pool.0 a.from_pool.1)
    ]

-- A valid pool with a uid to spare hands one out, which nobody holds and which is of its own range; it
-- holds exactly one uid more afterwards, keeps its range and stays valid.
pub alloc_sound :
    (p : Pool) (spare : ℕ)
    → IsValid p
    → p.min ≤ spare
    → spare < p.min + p.size
    → held spare p.in_use ≡ false
    → (uid : ℕ) × (q : Pool) × (alloc p ≡ some (uid, q)) × Allocated p uid q × IsValid q
alloc_sound p spare v lo hi free = elim (Option-cases (alloc p)) [
  | inr ((uid, q), e) ↦ let (a, v') = alloc-Allocated p v e in (uid, q, e, a, v')
  | inl e ↦ let full = (alloc-eq-none_iff p v).0 e spare lo hi in cc (full, free)
]

-- While fewer uids are held than the pool has, `Alloc` does not fail.
pub alloc_total :
    (p : Pool)
    → IsValid p
    → length p.in_use < p.size
    → (uid : ℕ) × (q : Pool) × (alloc p ≡ some (uid, q))
alloc_total p v h = elim (Option-cases (alloc p)) [
  | inr ((uid, q), e) ↦ (uid, q, e)
  | inl e ↦
      let full =
        le-length_of_held p.size p.min p.in_use
          (λ u lt. (alloc-eq-none_iff p v).0 e (p.min + u) (omega arith) (omega arith)) in
      absurd (omega arith)
]

held_range : (lo hi u : ℕ) (xs : List ℕ) → InRange lo hi xs → held u xs ≡ true → (lo ≤ u) × (u < hi)
unfolding held InRange
held_range lo hi u [] a h = cc
held_range lo hi u (x ∷ xs) a h = ground (arith, held_range lo hi u xs a.1)

delete-InRange : (lo hi u : ℕ) (xs : List ℕ) → InRange lo hi xs → InRange lo hi (delete u xs)
unfolding delete InRange
delete-InRange lo hi u [] a = tt
delete-InRange lo hi u (x ∷ xs) a = ground (arith, delete-InRange lo hi u xs a.1)

-- `Release` frees the given uid, where the pool has it and its range ends within 64 bits, and changes
-- nothing else.
pub held-release :
    (p : Pool) (uid v : ℕ)
    → IsValid p
    → p.min + p.size ≤ max_int
    → held v (release uid p).in_use ≡ (if uid == v then false else held v p.in_use)
unfolding release
held-release p uid v h fits =
    rw (release, wrap_int64-pos (p.min + p.size) fits)
      (ground (
        arith,
        held-delete uid v p.in_use,
        held_range p.min (p.min + p.size) v p.in_use h.in_range,
      ))

pub release-IsValid : (p : Pool) (uid : ℕ) → IsValid p → IsValid (release uid p)
unfolding release
release-IsValid p uid v =
    elim (Bool-cases (ltb uid p.min || leb_ℤ (wrap_int64 (pos (p.min + p.size))) (pos uid))) [
      | inl out ↦ rw out v
      | inr inside ↦ rw inside (record {
        nonempty = v.nonempty;
        next_lt = v.next_lt;
        in_range = delete-InRange p.min (p.min + p.size) uid p.in_use v.in_range;
      })
    ]

pub new-IsValid : (min n : ℕ) → IsValid (new min n)
unfolding new InRange
new-IsValid min n = ground arith

-- Where the range ends beyond 64 bits, `Release` frees no uid at all.
release-saturated :
    (p : Pool) (uid : ℕ) → p.min ≤ max_int → p.size ≡ max_int → 0 < p.min → release uid p ≡ p
unfolding release wrap_int64
release-saturated p uid small full given =
    let m : (p.min + p.size) % 2 ^ 64 ≡ p.min + p.size = omega arith in
    let below : ltb (p.min + p.size) (2 ^ 63) ≡ false = ground arith in
    rw (release, wrap_int64, m, below) (ground arith)
