-- ===== src/Scanner/Steady.antt =====
-- A scan of a frozen contribution either leaves what is known of each file as it was, or counts a change.
use openfotos_platform.Prelude.{
  ℕ, suc, ◌<◌, ◌≡◌, ◌∙◌, ◌⊎◌, refl, Bool, true, false, ◌&&◌, Option, none, some, List, [], ◌∷◌, ok,
  >>=-eq-ok, Bool-cases, inl, inr, map, any, update, total, map-update, arith, ◌=ᵗ◌, keep,
}
use openfotos_platform.Checkpoint.{ItemRow, SelectionRow, Store, Host, normalize_path}
use openfotos_platform.Checkpoint.Inventory.{
  get_item_by_path, touch_item, add_scan_issue, reconcile_unseen, is_lost, missing, row_count,
}
use openfotos_platform.Scanner.{Disk, Found, Candidate, discover}
use openfotos_platform.Scanner.Scan.{
  Scan, unchanged, visit_new, visit, visit_all, visit_selections, or_out_of_fuel,
}

-- What is known of the files, but for the scan that last saw them.
abbrev pub without_generation : ItemRow → ItemRow
without_generation i = record i { last_seen_generation = 0 }

abbrev pub known_files : Store → List ItemRow
known_files s = map without_generation s.items

-- From one moment of a scan to another.
abbrev pub Steady : Scan → Scan → Type 0
Steady v w =
    ((w.changed_count ≡ v.changed_count) × (known_files w.store ≡ known_files v.store))
    ⊎ (v.changed_count < w.changed_count)

Steady-trans : (u v w : Scan) → Steady u v → Steady v w → Steady u w
Steady-trans u v w (inl (a, b)) (inl (c, d)) = inl (c ∙ a, d ∙ b)
Steady-trans u v w (inl (a, b)) (inr c) = inr (ground (arith, a, c))
Steady-trans u v w (inr a) (inl (c, d)) = inr (ground (arith, a, c))
Steady-trans u v w (inr a) (inr c) = inr (ground (arith, a, c))

touch_item-known_files :
    (item generation : ℕ) (s : Store) → known_files (touch_item item generation s) ≡ known_files s
unfolding touch_item
touch_item-known_files item generation s = map-update without_generation _ _ (λ i. refl) s.items

module _ (h : Host) (disk : Disk) (fresh_id : ℕ → ℕ) where
  visit_new-Steady :
      (batch generation : ℕ) (c : Candidate) (existing : Option ItemRow) (v w : Scan)
      → visit_new h disk fresh_id batch generation true c existing v ≡ ok w
      → Steady v w
  unfolding visit_new add_scan_issue
  visit_new-Steady batch generation c none v w e = inl (ground arith, ground arith)
  visit_new-Steady batch generation c (some i) v w e = elim (Bool-cases (unchanged i c.snapshot)) [
    | inl same ↦ inl (ground arith, ground (arith, touch_item-known_files i.id generation v.store))
    | inr other ↦ inr (ground arith)
  ]

  module _ (is_cancelled : ℕ → Bool) (batch generation : ℕ) where
    visit-Steady :
        (f : Found) (v w : Scan)
        → visit h disk fresh_id is_cancelled batch generation true f v ≡ ok w
        → Steady v w
    unfolding visit add_scan_issue
    visit-Steady (Found.issue r reason path) v w e = inl (ground arith, ground arith)
    visit-Steady (Found.candidate c) v w e =
        let path = normalize_path h c.source_path in
        elim (Bool-cases (is_cancelled v.asked)) [
          | inl stop ↦ ground arith
          | inr on ↦ elim (Bool-cases (any (λ q. q =ᵗ path) v.seen)) [
            | inl again ↦ inl (ground arith, ground arith)
            | inr first ↦
                visit_new-Steady batch generation c (get_item_by_path batch path v.store)
                  (record v { asked = suc v.asked; seen = path ∷ v.seen }) w (ground arith)
          ]
        ]

    visit_all-Steady :
        (fs : List Found) (v w : Scan)
        → visit_all h disk fresh_id is_cancelled batch generation true fs v ≡ ok w
        → Steady v w
    unfolding visit_all
    visit_all-Steady [] v w e = inl (ground arith, ground arith)
    visit_all-Steady (f ∷ fs) v w e =
        let (u, first, rest) =
          >>=-eq-ok (visit h disk fresh_id is_cancelled batch generation true f v)
            (λ u. visit_all h disk fresh_id is_cancelled batch generation true fs u) e in
        Steady-trans v u w (visit-Steady f v u first) (visit_all-Steady fs u w rest)

    visit_found-Steady :
        (found : Option (List Found)) (v w : Scan)
        → or_out_of_fuel h disk fresh_id is_cancelled v found
            (λ fs. visit_all h disk fresh_id is_cancelled batch generation true fs v)
          ≡ ok w
        → Steady v w
    visit_found-Steady none v w e = ground arith
    visit_found-Steady (some fs) v w e = visit_all-Steady fs v w e

    pub visit_selections-Steady :
        (fuel : ℕ) (rs : List SelectionRow) (v w : Scan)
        → visit_selections h disk fresh_id is_cancelled fuel batch generation true rs v ≡ ok w
        → Steady v w
    unfolding visit_selections
    visit_selections-Steady fuel [] v w e = inl (ground arith, ground arith)
    visit_selections-Steady fuel (r ∷ rs) v w e =
        let (u, first, rest) =
          >>=-eq-ok
            (or_out_of_fuel h disk fresh_id is_cancelled v (discover disk fuel r)
              (λ fs. visit_all h disk fresh_id is_cancelled batch generation true fs v))
            (λ u. visit_selections h disk fresh_id is_cancelled fuel batch generation true rs u)
            e in
        Steady-trans v u w (visit_found-Steady (discover disk fuel r) v u first)
          (visit_selections-Steady fuel rs u w rest)

pub row_count-none :
    {A : Type 0} (p : A → Bool) (rows : List A) → row_count p rows ≡ 0 → any p rows ≡ false
unfolding any total
row_count-none p [] e = refl
row_count-none p (r ∷ rows) e = ground (arith, row_count-none p rows)

pub row_count-keep-none :
    {A : Type 0} (q p : A → Bool) (rows : List A)
    → row_count p (keep q rows) ≡ 0
    → any (λ r. q r && p r) rows ≡ false
unfolding any total keep
row_count-keep-none q p [] e = refl
row_count-keep-none q p (r ∷ rows) e = ground (arith, row_count-keep-none q p rows)

update-none :
    {A : Type 0} (p : A → Bool) (f : A → A) (rows : List A)
    → any p rows ≡ false
    → update p f rows ≡ rows
unfolding any update
update-none p f [] e = refl
update-none p f (r ∷ rows) e = ground (arith, update-none p f rows)

-- A reconciliation that loses nothing leaves the files as they are.
pub reconcile_unseen-known_files :
    (batch generation : ℕ) (frozen : Bool) (s : Store)
    → frozen ≡ true
    → (reconcile_unseen batch generation frozen s).0 ≡ 0
    → (reconcile_unseen batch generation frozen s).1.items ≡ s.items
unfolding reconcile_unseen
reconcile_unseen-known_files batch generation false s f e = absurd (ground arith)
reconcile_unseen-known_files batch generation true s f e =
    update-none (is_lost batch generation) missing s.items
      (row_count-none (is_lost batch generation) s.items e)
