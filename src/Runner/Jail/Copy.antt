-- ===== src/Runner/Jail/Copy.antt =====
-- `seedFrom` and `copyTree` of internal/runner/jail.go: a jail of a parallel test gets the files of the
-- build's template. A directory is the list of its entries; every entry has its owner.
pub mod Owned
pub mod Contents
use goboxd.Base.{
  ℕ, String, Bool, true, false, List, [], ◌∷◌, Option, none, some, str_eq, if◌then◌else◌,
}

mutual
  -- A directory and a file have a mode. `special` is a FIFO, a socket or a device.
  pub data Entry : Type 0 where
    dir : ℕ → ℕ → Entries → Entry
    link : ℕ → String → Entry
    file : ℕ → ℕ → String → Entry
    special : ℕ → Entry

  pub data Entries : Type 0 where
    end : Entries
    entry : String → Entry → Entries → Entries

-- The host: whether every call on a path succeeds where nothing is in its way, and the mode that a
-- new directory gets under the umask. A path is its names from the last one up.
pub record Files : Type 0 where
  pub works : List String → Bool
  pub masked : ℕ → ℕ

unfoldable pub find : String → Entries → Option Entry
find name end = none
find name (entry n e es) = let rest = find name es in if str_eq n name then some e else rest

-- The directory with an entry of that name, in place of the one it had.
unfoldable pub set : String → Entry → Entries → Entries
set name e end = entry name e end
set name e (entry n f es) =
    let rest = set name e es in if str_eq n name then entry n e es else entry n f rest

-- Whether os.Remove leaves nothing at a path: a directory that holds something stays.
unfoldable pub removable : Option Entry → Bool
removable (some (dir owner mode (entry name e es))) = false
removable e = true

-- A link or a file that is made anew, O_EXCL, after os.Remove.
unfoldable pub replace : Bool → Option Entry → Entry → Option (Option Entry)
unfolding removable
replace works old new = if works then if removable old then some (some new) else none else none

unfoldable mutual
  -- The entry that is left in the other directory; `some none` leaves what is there, and `none` is an
  -- error. What stands in the way of a directory is an error too: `newJail` puts no link there.
  pub copy_entry : Files → ℕ → List String → Entry → Option Entry → Option (Option Entry)
  copy_entry h uid path (dir owner mode es) none =
      let inner = copy_tree h uid path es end in
      if h.works path
      then elim inner [ none ↦ none | some ds ↦ some (some (dir uid (h.masked mode) ds)) ]
      else none
  copy_entry h uid path (dir owner mode es) (some (dir o m ds)) =
      let inner = copy_tree h uid path es ds in
      if h.works path
      then elim inner [ none ↦ none | some ds' ↦ some (some (dir uid m ds')) ]
      else none
  copy_entry h uid path (dir owner mode es) (some other) = none
  copy_entry h uid path (link owner target) old = replace (h.works path) old (link uid target)
  copy_entry h uid path (file owner mode text) old = replace (h.works path) old (file uid mode text)
  copy_entry h uid path (special owner) old = some none

  -- `copyTree`; `none` is an error.
  pub copy_tree : Files → ℕ → List String → Entries → Entries → Option Entries
  copy_tree h uid path end ds = some ds
  copy_tree h uid path (entry name e es) ds =
      elim (copy_entry h uid (name ∷ path) e (find name ds)) [
        | none ↦ none
        | some none ↦ copy_tree h uid path es ds
        | some (some f) ↦ copy_tree h uid path es (set name f ds)
      ]

-- `seedFrom`: the template's app directory into that of the jail of a uid.
unfoldable pub seed_from : Files → ℕ → Entries → Entries → Option Entries
unfolding copy_tree
seed_from h uid template app =
    let copied = copy_tree h uid [] template app in if h.works [] then copied else none
