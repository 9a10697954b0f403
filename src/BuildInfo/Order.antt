-- ===== src/BuildInfo/Order.antt =====
-- `AtLeast` of internal/buildinfo/buildinfo.go as an order on versions.
use goboxd.Base.{String, true, ◌||◌, ◌≡◌, arith}
use goboxd.BuildInfo.{Version, parts, not_below, at_least}

not_below_trans :
    (a b c : Version) → not_below a b ≡ true → not_below b c ≡ true → not_below a c ≡ true
unfolding not_below
not_below_trans a b c ab bc = ground arith

not_below_total : (a b : Version) → (not_below a b || not_below b a) ≡ true
unfolding not_below
not_below_total a b = ground arith

-- Of two versions, one is at least the other.
pub at_least_total : (u v : String) → (at_least u v || at_least v u) ≡ true
unfolding at_least
at_least_total u v = not_below_total (parts u) (parts v)

-- A version that is at least a second one is at least each version that the second one is at least.
pub at_least_trans :
    (u v w : String) → at_least u v ≡ true → at_least v w ≡ true → at_least u w ≡ true
unfolding at_least
at_least_trans u v w = not_below_trans (parts u) (parts v) (parts w)
