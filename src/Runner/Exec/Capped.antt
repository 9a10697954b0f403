-- ===== src/Runner/Exec/Capped.antt =====
-- `readCapped` of internal/runner/runner.go.
use goboxd.Base.{
  ℕ, zero, suc, ◌+◌, ◌≤◌, ◌<◌, true, false, List, [], ◌∷◌, ◌++◌, ltb, leb, length, max_int, ◌≡◌,
  refl, ap, inl, inr, arith, Bool-cases, wrap_int64-pos, length-append, if◌then◌else◌, to_ℕ,
}
use goboxd.Runner.Exec.{take, read_capped, marker, limited}

length-take :
    (n : ℕ) (bs : List ℕ) → length (take n bs) ≡ (if leb n (length bs) then n else length bs)
unfolding take
length-take zero bs = ground arith
length-take (suc n) [] = ground arith
length-take (suc n) (b ∷ bs) = ground (arith, length-take n bs)

take-all : (n : ℕ) (bs : List ℕ) → length bs ≤ n → take n bs ≡ bs
unfolding take
take-all zero [] h = refl
take-all zero (b ∷ bs) h = absurd (omega arith)
take-all (suc n) [] h = refl
take-all (suc n) (b ∷ bs) h = ap (◌∷◌ b) (take-all n bs (omega arith))

take-take : (m n : ℕ) (bs : List ℕ) → m ≤ n → take m (take n bs) ≡ take m bs
unfolding take
take-take zero n bs h = refl
take-take (suc m) zero bs h = absurd (omega arith)
take-take (suc m) (suc n) [] h = refl
take-take (suc m) (suc n) (b ∷ bs) h = ap (◌∷◌ b) (take-take m n bs (omega arith))

limited-lem : (limit : ℕ) (bs : List ℕ) → limit < max_int → limited limit bs ≡ take (limit + 1) bs
limited-lem limit bs h = ap (λ k. take (to_ℕ k) bs) (wrap_int64-pos (limit + 1) (omega arith))

-- Below the largest cap of 64 bits, output of at most the cap is kept as it is, and longer output is
-- cut at the cap and marked: what is kept never has more bytes than the cap and the mark.
pub read_capped_bounded :
    (limit : ℕ) (bs : List ℕ)
    → limit < max_int
    → (read_capped limit bs ≡ (if leb (length bs) limit then bs else take limit bs ++ marker))
      × (length (read_capped limit bs) ≤ limit + length marker)
unfolding read_capped
read_capped_bounded limit bs h =
    let seen = limited-lem limit bs h in
    let len = length-take (limit + 1) bs in
    elim (Bool-cases (leb (length bs) limit)) [
      | inl e ↦
          let whole = take-all (limit + 1) bs (ground arith) in
          let below : ltb limit (length bs) ≡ false = ground arith in
          rw (seen, whole, below, e) (refl, ground arith)
      | inr e ↦
          let over : ltb limit (length (take (limit + 1) bs)) ≡ true = ground arith in
          let cut = length-take limit bs in
          let joined = length-append (take limit bs) marker in
          rw (seen, over, e)
            (
              ap (λ t. t ++ marker) (take-take limit (limit + 1) bs (omega arith)),
              rw (take-take limit (limit + 1) bs (omega arith), joined) (ground arith),
            )
    ]
