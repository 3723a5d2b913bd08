-- ===== src/Checkpoint/Pending/Ignore.antt =====
-- `INSERT OR IGNORE`: it keeps what is there, covers what is inserted, and changes nothing the second
-- time.
use openfotos_platform.Prelude.{
  subst, ◌≡◌, Bool, true, false, not, List, [], ◌∷◌, ◌++◌, any, refl, sym, arith, any-append,
  Bool-cases, inl, inr, if◌then◌else◌, ◌∙◌,
}
use openfotos_platform.Checkpoint.Pending.{insert_or_ignore}

module _ {ℓ} {A : Type ℓ} (same : A → A → Bool) where
  -- Is a row missing?
  abbrev pub uncovered : List A → List A → Bool
  uncovered xs rows = any (λ x. not (any (same x) rows)) xs

  append_assoc : (xs ys zs : List A) → (xs ++ ys) ++ zs ≡ xs ++ (ys ++ zs)
  append_assoc [] ys zs = refl
  append_assoc (x ∷ xs) ys zs = rw (append_assoc xs ys zs) refl

  append_nil : (xs : List A) → xs ++ [] ≡ xs
  append_nil [] = refl
  append_nil (x ∷ xs) = rw (append_nil xs) refl

  pub insert_or_ignore-keeps :
      (xs rows : List A) → (new : List A) × (insert_or_ignore same xs rows ≡ rows ++ new)
  unfolding insert_or_ignore
  insert_or_ignore-keeps [] rows = ([], sym (append_nil rows))
  insert_or_ignore-keeps (x ∷ xs) rows = elim (Bool-cases (any (same x) rows)) [
    | inl e ↦ rw e (insert_or_ignore-keeps xs rows)
    | inr e ↦
        let (new, h) = insert_or_ignore-keeps xs (rows ++ x ∷ []) in
        (x ∷ new, rw e (h ∙ append_assoc rows (x ∷ []) new))
  ]

  pub insert_or_ignore-any :
      (p : A → Bool) (xs rows : List A)
      → any p rows ≡ true
      → any p (insert_or_ignore same xs rows) ≡ true
  insert_or_ignore-any p xs rows e =
      let (new, h) = insert_or_ignore-keeps xs rows in rw (h, any-append p rows new, e) refl

  -- One row, and what was there, are in the table from which the other rows are inserted.
  covers_first :
      ((x : A) → same x x ≡ true)
      → (x : A) (rows : List A)
      → any (same x) (if any (same x) rows then rows else rows ++ x ∷ []) ≡ true
  unfolding any
  covers_first reflexive x rows = ground (arith, any-append (same x) rows (x ∷ []), reflexive x)

  covers_into :
      ((x : A) → same x x ≡ true)
      → (xs rows table : List A) → table ≡ insert_or_ignore same xs rows
      → uncovered xs table ≡ false
  unfolding insert_or_ignore any
  covers_into reflexive [] rows table e = refl
  covers_into reflexive (x ∷ xs) rows table e =
      let first = if any (same x) rows then rows else rows ++ x ∷ [] in
      rw
        (subst (λ t. any (same x) t ≡ true) (sym e)
          (insert_or_ignore-any (same x) xs first (covers_first reflexive x rows)))
        (covers_into reflexive xs first table e)

  pub insert_or_ignore-covers :
      ((x : A) → same x x ≡ true)
      → (xs rows : List A) → uncovered xs (insert_or_ignore same xs rows) ≡ false
  insert_or_ignore-covers reflexive xs rows = covers_into reflexive xs rows _ refl

  pub insert_or_ignore-again :
      (xs rows : List A) → uncovered xs rows ≡ false → insert_or_ignore same xs rows ≡ rows
  unfolding insert_or_ignore any
  insert_or_ignore-again [] rows e = refl
  insert_or_ignore-again (x ∷ xs) rows e = ground (arith, insert_or_ignore-again xs rows)
