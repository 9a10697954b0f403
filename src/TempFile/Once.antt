-- ===== src/TempFile/Once.antt =====
-- The files that are written once (internal/runner/hosts.go, internal/seccomp/seccomp.go).
use text.Mathlib.TextPositions.{eq_refl}
use goboxd.Base.{String, ◌∷◌, some, Option-cases, ◌≡◌, refl, inl, inr}
use goboxd.TempFile.{
  File, Disk, read, Kind, Created, at, refused, Calls, readable, make_readable, write_once, unset,
  masked_path, at_path, materialized,
}

at_path-inj : {p q : String} → at_path p ≡ at_path q → p ≡ q
at_path-inj e = cc e

read-first : (p path : String) (f : File) (d : Disk) → p ≡ path → read path ((p, f) ∷ d) ≡ some f
unfolding read
read-first p path f d e = rw (e, eq_refl path) refl

write_once-read :
    (k : Kind) (c : Calls) (d : Disk) (message path : String)
    → k.chmod ≡ some message
    → materialized (write_once k c d).0 ≡ at_path path
    → read path (write_once k c d).1 ≡ some (record { content = k.content; mode = readable })
unfolding write_once make_readable materialized
write_once-read k c d message path hk h = by_create c.create refl
  where
    by_create :
        (x : Created)
        → c.create ≡ x
        → read path (write_once k c d).1 ≡ some (record { content = k.content; mode = readable })
    by_create (refused e) x = let wrong = rw (write_once, x) at h in cc wrong
    by_create (at p) x = elim (Option-cases c.write) [
      | inr (e, w) ↦ let wrong = rw (write_once, x, w) at h in cc wrong
      | inl w ↦ elim (Option-cases c.close) [
        | inr (e, s) ↦ let wrong = rw (write_once, x, w, s) at h in cc wrong
        | inl s ↦ elim (Option-cases c.chmod) [
          | inr (e, m) ↦ let wrong = rw (write_once, x, w, s, hk, m) at h in cc wrong
          | inl m ↦
              let same = at_path-inj (rw (write_once, x, w, s, hk, m) at h) in
              rw (write_once, x, w, s, hk, m)
                (read-first p path (record { content = k.content; mode = readable }) d same)
        ]
      ]
    ]

-- The first call of a path's function, for a file that is made readable: where it gives a path, the
-- file at it has the content and can be read by all, and every later call gives the same path and
-- leaves the disk as it is.
pub masked_path-read :
    (k : Kind) (c later : Calls) (d : Disk) (message path : String)
    → k.chmod ≡ some message
    → materialized (masked_path k c unset d).1.0 ≡ at_path path
    → (read path (masked_path k c unset d).1.1
        ≡ some (record { content = k.content; mode = readable }))
      × (materialized
            (masked_path k later (masked_path k c unset d).0 (masked_path k c unset d).1.1).1.0
          ≡ at_path path)
      × ((masked_path k later (masked_path k c unset d).0 (masked_path k c unset d).1.1).1.1
          ≡ (masked_path k c unset d).1.1)
unfolding masked_path
masked_path-read k c later d message path hk h = (write_once-read k c d message path hk h, h, refl)
