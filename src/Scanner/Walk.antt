-- ===== src/Scanner/Walk.antt =====
-- The walk of a folder ends: on a finite tree, a fuel that counts its directories is enough.
use openfotos_platform.Prelude.{
  ◌≢◌, text_before, Bool-cases, ℕ, zero, suc, ◌+◌, ◌≤◌, ◌<◌, ◌≡◌, not, ◌&&◌, Option, none, some,
  List, [], ◌∷◌, ◌++◌, if◌then◌else◌, Text, total, refl, arith, total-sort_by, Option-cases, inl,
  inr,
}
use openfotos_platform.Checkpoint.{ScanIssueReason, SelectionRow}
use openfotos_platform.Scanner.{
  Disk, Found, Details, is_directory, walk_entries, walk_directory, sorted_entries,
}

module _ (disk : Disk) (size : Text → ℕ) where
  open disk use {stat, is_linked, scandir}

  -- What a path adds to the walk: its size where it is a directory and no link.
  abbrev pub weight_of : Text → Option Details → ℕ
  weight_of path none = 0
  weight_of path (some d) = if is_directory d.mode && not (is_linked path) then size path else 0

  abbrev pub weight : Text → ℕ
  weight path = weight_of path (stat path)

  abbrev pub listed : Option (List Text) → List Text
  listed none = []
  listed (some paths) = paths

  walk_entries-total :
      (r : SelectionRow) (paths : List Text) (found : List Found) (below : List Text)
      → total size (walk_entries disk r paths found below).1 ≡ total weight paths + total size below
  unfolding walk_entries total
  walk_entries-total r [] found below = omega arith
  walk_entries-total r (path ∷ paths) found below = elim (Option-cases (stat path)) [
    | inl e ↦ rw (walk_entries, e) (omega (arith, walk_entries-total r paths _ below))
    | inr (d, e) ↦ elim (Bool-cases (is_directory d.mode && not (is_linked path))) [
      | inl b ↦ rw (walk_entries, e, b) (omega (arith, walk_entries-total r paths _ (path ∷ below)))
      | inr b ↦ rw (walk_entries, e, b) (omega (arith, walk_entries-total r paths _ below))
    ]
  ]

  walk_directory-found :
      ((d : Text) → total weight (listed (scandir d)) < size d)
      → (fuel : ℕ) (r : SelectionRow) (pending : List Text) → total size pending ≤ fuel
      → (found : List Found) × (walk_directory disk fuel r pending ≡ some found)
  unfolding walk_directory total
  walk_directory-found finite fuel r [] h = ([], refl)
  walk_directory-found finite zero r (top ∷ pending) h = absurd (ground (arith, finite top))
  walk_directory-found finite (suc fuel) r (top ∷ pending) h = elim (Option-cases (scandir top)) [
    | inl e ↦
        let (found, h') = walk_directory-found finite fuel r pending (ground (arith, finite top)) in
        (
          Found.issue r ScanIssueReason.directory_unreadable top ∷ found,
          rw (walk_directory, e, h') refl,
        )
    | inr (paths, e) ↦
        let (found, h') =
          walk_directory-found finite fuel r
            (walk_entries disk r (sorted_entries disk paths) [] pending).1
            (ground (
              arith,
              finite top,
              walk_entries-total r (sorted_entries disk paths) [] pending,
              total-sort_by weight (λ a b. not (text_before (disk.sort_key a) (disk.sort_key b)))
                  paths,
            )) in
        (
          (walk_entries disk r (sorted_entries disk paths) [] pending).0 ++ found,
          rw (walk_directory, e, h') refl,
        )
  ]

  -- Where the directories below a directory weigh less than it does, the walk of a stack ends within the
  -- fuel that the stack weighs.
  pub walk_directory-ends :
      ((d : Text) → total weight (listed (scandir d)) < size d)
      → (fuel : ℕ) (r : SelectionRow) (pending : List Text) → total size pending ≤ fuel
      → walk_directory disk fuel r pending ≢ none
  walk_directory-ends finite fuel r pending h e =
      let (found, h') = walk_directory-found finite fuel r pending h in ground arith
