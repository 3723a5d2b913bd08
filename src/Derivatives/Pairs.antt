-- ===== src/Derivatives/Pairs.antt =====
-- The number of verified previews and thumbnails of some photos, where an asset has at most one row of each.
use openfotos_platform.Prelude.{
  ℕ, ◌+◌, ◌*◌, ◌≤◌, ◌≡◌, refl, Bool, true, false, not, ◌&&◌, List, [], ◌∷◌, ◌==◌, any, keep, length,
  arith, if◌then◌else◌, Bool-cases, inl, inr,
}
use openfotos_platform.States.{Variant}
use openfotos_platform.Models.{Asset, AssetObject}
use openfotos_platform.Ingest.Rows.{is_verified}
use openfotos_platform.Ingest.Status.{is_asset_of, is_derivative}

-- A verified row of one variant of a photo.
abbrev pub has_original : List AssetObject → Asset → Bool
has_original objects a =
    any
      (λ o.
        o.asset == a.id
        && (elim o.variant [ Variant.original ↦ true | _ ↦ false ] && is_verified o.state))
      objects

abbrev pub is_preview : Variant → Bool
is_preview v = elim v [ Variant.preview ↦ true | _ ↦ false ]

abbrev pub is_thumbnail : Variant → Bool
is_thumbnail v = elim v [ Variant.thumbnail ↦ true | _ ↦ false ]

abbrev pub has_preview : List AssetObject → Asset → Bool
has_preview objects a =
    any (λ o. o.asset == a.id && (is_preview o.variant && is_verified o.state)) objects

abbrev pub has_thumbnail : List AssetObject → Asset → Bool
has_thumbnail objects a =
    any (λ o. o.asset == a.id && (is_thumbnail o.variant && is_verified o.state)) objects

-- The rows of one asset under one variant, and the rows of one id, are at most one.
abbrev pub are_distinct_objects : List AssetObject → Bool
are_distinct_objects [] = true
are_distinct_objects (o ∷ os) =
    let rest = are_distinct_objects os in
    not (any (λ q. q.asset == o.asset && is_preview q.variant && is_preview o.variant) os)
    && (not (any (λ q. q.asset == o.asset && is_thumbnail q.variant && is_thumbnail o.variant) os)
        && rest)

abbrev pub are_distinct_assets : List Asset → Bool
are_distinct_assets [] = true
are_distinct_assets (a ∷ as') =
    let rest = are_distinct_assets as' in not (any (λ b. b.id == a.id) as') && rest

abbrev pub one_if : Bool → ℕ
one_if b = if b then 1 else 0

-- A verified derivative of a photo.
abbrev pub is_own : Asset → AssetObject → Bool
is_own a o = o.asset == a.id && (is_derivative o.variant && is_verified o.state)

no_more_previews :
    (o : AssetObject) (a : Asset) (os : List AssetObject)
    → any (λ q. q.asset == o.asset && is_preview q.variant && is_preview o.variant) os ≡ false
    → is_preview o.variant ≡ true
    → (o.asset == a.id) ≡ true
    → has_preview os a ≡ false
unfolding any
no_more_previews o a [] h v e = refl
no_more_previews o a (q ∷ os) h v e = ground (arith, no_more_previews o a os, h, v, e)

no_more_thumbnails :
    (o : AssetObject) (a : Asset) (os : List AssetObject)
    → any (λ q. q.asset == o.asset && is_thumbnail q.variant && is_thumbnail o.variant) os ≡ false
    → is_thumbnail o.variant ≡ true
    → (o.asset == a.id) ≡ true
    → has_thumbnail os a ≡ false
unfolding any
no_more_thumbnails o a [] h v e = refl
no_more_thumbnails o a (q ∷ os) h v e = ground (arith, no_more_thumbnails o a os, h, v, e)

-- The derivatives of a photo: its preview and its thumbnail.
own_count :
    (a : Asset) (os : List AssetObject)
    → are_distinct_objects os ≡ true
    → length (keep (is_own a) os) ≡ one_if (has_preview os a) + one_if (has_thumbnail os a)
unfolding any keep
own_count a [] d = refl
own_count a (o ∷ os) d =
    ground (arith, own_count a os, no_more_previews o a os, no_more_thumbnails o a os)

absent :
    (x y : ℕ) (photos : List Asset)
    → (x == y) ≡ true
    → any (λ b. b.id == y) photos ≡ false
    → any (λ b. b.id == x) photos ≡ false
unfolding any
absent x y [] e h = refl
absent x y (b ∷ photos) e h = ground (arith, absent x y photos, e, h)

-- The verified derivatives of the photos of a list.
abbrev pub is_counted : List Asset → AssetObject → Bool
is_counted photos o = is_asset_of photos o.asset && (is_derivative o.variant && is_verified o.state)

-- The rows of the photos of a list are those of the first and those of the others.
count_split :
    (a : Asset) (photos : List Asset) (os : List AssetObject)
    → any (λ b. b.id == a.id) photos ≡ false
    → length (keep (is_counted (a ∷ photos)) os)
      ≡ length (keep (is_own a) os) + length (keep (is_counted photos) os)
unfolding any keep
count_split a photos [] h = refl
count_split a photos (o ∷ os) h = elim (Bool-cases (o.asset == a.id)) [
  | inl same ↦ ground (arith, absent o.asset a.id photos same h, count_split a photos os h, same)
  | inr other ↦ ground (arith, count_split a photos os h, other)
]

count_none : (os : List AssetObject) → length (keep (is_counted []) os) ≡ 0
unfolding any keep
count_none [] = refl
count_none (o ∷ os) = ground (arith, count_none os)

-- A photo that lacks one of its derivatives.
abbrev pub lacks_derivative : List AssetObject → Asset → Bool
lacks_derivative os a = not (has_preview os a && has_thumbnail os a)

pub count_all :
    (photos : List Asset) (os : List AssetObject)
    → are_distinct_assets photos ≡ true
    → are_distinct_objects os ≡ true
    → (length (keep (is_counted photos) os) ≤ length photos * 2)
      × ((length (keep (is_counted photos) os) == length photos * 2)
          ≡ not (any (lacks_derivative os) photos))
unfolding any
count_all [] os da d = ground (arith, count_none os)
count_all (a ∷ photos) os da d =
    let (bound, same) = count_all photos os (ground (arith, da)) d in
    let split = count_split a photos os (ground (arith, da)) in
    let own = own_count a os d in
    (ground (arith, bound, split, own), ground (arith, bound, same, split, own))

kept_none : (p q : Asset → Bool) (xs : List Asset) → any p xs ≡ false → any p (keep q xs) ≡ false
unfolding any keep
kept_none p q [] e = refl
kept_none p q (x ∷ xs) e = ground (arith, kept_none p q xs, e)

pub keep-distinct :
    (q : Asset → Bool) (photos : List Asset)
    → are_distinct_assets photos ≡ true
    → are_distinct_assets (keep q photos) ≡ true
unfolding keep any
keep-distinct q [] d = refl
keep-distinct q (a ∷ photos) d =
    ground (arith, d, keep-distinct q photos, kept_none (λ b. b.id == a.id) q photos)

pub any-kept : (p q : Asset → Bool) (xs : List Asset) → any p (keep q xs) ≡ any (λ x. q x && p x) xs
unfolding any keep
any-kept p q [] = refl
any-kept p q (x ∷ xs) = ground (arith, any-kept p q xs)

pub keep_nothing : (q : Asset → Bool) (xs : List Asset) → (length (keep q xs) == 0) ≡ not (any q xs)
unfolding any keep
keep_nothing q [] = refl
keep_nothing q (x ∷ xs) = ground (arith, keep_nothing q xs)

pub keep_ext :
    (p q : Asset → Bool) → ((x : Asset) → p x ≡ q x) → (xs : List Asset) → keep p xs ≡ keep q xs
unfolding keep
keep_ext p q same [] = refl
keep_ext p q same (x ∷ xs) = rw (same x, keep_ext p q same xs) refl
