-- ===== src/Runner/Jail/Copy/Owned.antt =====
-- What a jail has after `seedFrom` of internal/runner/jail.go.
use goboxd.Base.{
  ℕ, String, Bool, true, false, List, [], ◌∷◌, Option, none, some, ◌≡◌, refl, str_eq, if◌then◌else◌,
  Bool-cases, inl, inr, subst,
}
use goboxd.Runner.Jail.Copy.{
  Entry, dir, link, file, special, Entries, end, entry, Files, find, set, removable, replace,
  copy_entry, copy_tree, seed_from,
}

module _ (uid : ℕ) where
  -- Every entry, however deep, belongs to the uid, and none is a FIFO, a socket or a device.
  abbrev mutual
    pub IsOwnedEntry : Entry → Type 0
    IsOwnedEntry (dir owner mode es) = (owner ≡ uid) × IsOwned es
    IsOwnedEntry (link owner target) = owner ≡ uid
    IsOwnedEntry (file owner mode text) = owner ≡ uid
    IsOwnedEntry (special owner) = ⊥

    pub IsOwned : Entries → Type 0
    IsOwned end = Unit
    IsOwned (entry name e es) = IsOwnedEntry e × IsOwned es

  abbrev IsOwnedFound : Option Entry → Type 0
  IsOwnedFound none = Unit
  IsOwnedFound (some e) = IsOwnedEntry e

  -- The outcome of a copy of an entry.
  abbrev IsOwnedCopy : Option (Option Entry) → Type 0
  IsOwnedCopy none = Unit
  IsOwnedCopy (some e) = IsOwnedFound e

  abbrev IsOwnedTree : Option Entries → Type 0
  IsOwnedTree none = Unit
  IsOwnedTree (some es) = IsOwned es

  find-IsOwned : (name : String) (es : Entries) → IsOwned es → IsOwnedFound (find name es)
  unfolding find
  find-IsOwned name end h = tt
  find-IsOwned name (entry n e es) h = elim (Bool-cases (str_eq n name)) [
    | inl same ↦ rw same (h.0)
    | inr other ↦ rw other (find-IsOwned name es h.1)
  ]

  set-IsOwned :
      (name : String) (e : Entry) (es : Entries)
      → IsOwnedEntry e
      → IsOwned es
      → IsOwned (set name e es)
  unfolding set
  set-IsOwned name e end he h = (he, tt)
  set-IsOwned name e (entry n f es) he h = elim (Bool-cases (str_eq n name)) [
    | inl same ↦ rw same (he, h.1)
    | inr other ↦ rw other (h.0, set-IsOwned name e es he h.1)
  ]

  replace-IsOwned :
      (works : Bool) (old : Option Entry) (new : Entry)
      → IsOwnedEntry new
      → IsOwnedCopy (replace works old new)
  unfolding replace
  replace-IsOwned false old new h = tt
  replace-IsOwned true old new h = elim (Bool-cases (removable old)) [
    | inl free ↦ rw free h
    | inr full ↦ rw full tt
  ]

  made-IsOwned :
      (works : Bool) (mode : ℕ) (inner : Option Entries)
      → IsOwnedTree inner
      → IsOwnedCopy (
          if works
          then elim inner [ none ↦ none | some ds ↦ some (some (dir uid mode ds)) ]
          else none)
  made-IsOwned false mode inner h = tt
  made-IsOwned true mode none h = tt
  made-IsOwned true mode (some ds) h = (refl, h)

  mutual
    unfolding copy_entry copy_tree

    copy_entry-IsOwned :
        (h : Files) (path : List String) (e : Entry) (old : Option Entry)
        → IsOwnedFound old
        → IsOwnedCopy (copy_entry h uid path e old)
    copy_entry-IsOwned h path (dir owner mode es) none o =
        made-IsOwned (h.works path) (h.masked mode) _ (copy_tree-IsOwned h path es end tt)
    copy_entry-IsOwned h path (dir owner mode es) (some (dir p m ds)) o =
        made-IsOwned (h.works path) m _ (copy_tree-IsOwned h path es ds o.1)
    copy_entry-IsOwned h path (dir owner mode es) (some (link p t)) o = tt
    copy_entry-IsOwned h path (dir owner mode es) (some (file p m t)) o = tt
    copy_entry-IsOwned h path (dir owner mode es) (some (special p)) o = tt
    copy_entry-IsOwned h path (link owner target) old o =
        replace-IsOwned (h.works path) old (link uid target) refl
    copy_entry-IsOwned h path (file owner mode text) old o =
        replace-IsOwned (h.works path) old (file uid mode text) refl
    copy_entry-IsOwned h path (special owner) old o = tt

    copy_tree-IsOwned :
        (h : Files) (path : List String) (es ds : Entries)
        → IsOwned ds
        → IsOwnedTree (copy_tree h uid path es ds)
    copy_tree-IsOwned h path end ds o = o
    copy_tree-IsOwned h path (entry name e es) ds o =
        by_copy (copy_entry h uid (name ∷ path) e (find name ds))
          (copy_entry-IsOwned h (name ∷ path) e (find name ds) (find-IsOwned name ds o))
          (copy_tree-IsOwned h path es)
      where
        by_copy :
            (c : Option (Option Entry))
            → IsOwnedCopy c
            → ((ds : Entries) → IsOwned ds → IsOwnedTree (copy_tree h uid path es ds))
            → IsOwnedTree (elim c [
              | none ↦ none
              | some none ↦ copy_tree h uid path es ds
              | some (some f) ↦ copy_tree h uid path es (set name f ds)
            ])
        by_copy none oc ih = tt
        by_copy (some none) oc ih = ih ds o
        by_copy (some (some f)) oc ih = ih (set name f ds) (set-IsOwned name f ds oc o)

-- After a copy that succeeds, every entry of the jail's app directory, however deep, belongs to the
-- jail's uid, if that held before, and no FIFO, socket or device has come along.
pub seed_from-IsOwned :
    (h : Files) (uid : ℕ) (template app : Entries) {r : Entries}
    → IsOwned uid app
    → seed_from h uid template app ≡ some r
    → IsOwned uid r
unfolding seed_from
seed_from-IsOwned h uid template app {r} o e =
    by_root (h.works []) (copy_tree h uid [] template app)
      (copy_tree-IsOwned uid h [] template app o) e
  where
    by_root :
        (works : Bool) (c : Option Entries)
        → IsOwnedTree uid c
        → (if works then c else none) ≡ some r
        → IsOwned uid r
    by_root false c oc e = cc
    by_root true c oc e = subst (IsOwnedTree uid) e oc
