-- ===== src/Ingest/Counters/Keeps.antt =====
-- The rule for operations on the database and the object store.
use openfotos_platform.Prelude.{◌≡◌, refl, ok, err, Result, ◌≢◌}
use openfotos_platform.Models.{Code}
use openfotos_platform.Platform.{Platform}
use openfotos_platform.Ingest.Rows.{and_then, World}
use openfotos_platform.Ingest.Counters.{ap, CountersExact}

-- What an operation on the world leaves: exact totals, and no raise by a check constraint.
module _ (p : Platform) where
  pub record Keeps {A : Type 0} (r : Result Code A × World p) : Type 0 where
    pub exact : CountersExact r.1.db
    pub unconstrained : r.0 ≢ err Code.integrity_error

  pub Keeps-refusal :
      {A : Type 0} (c : Code) (w : World p)
      → CountersExact w.db
      → c ≢ Code.integrity_error
      → Keeps {A = A} (err c, w)
  Keeps-refusal c w x h = record { exact = x; unconstrained = λ e. h (cc) }

  pub Keeps-done : {A : Type 0} (a : A) (w : World p) → CountersExact w.db → Keeps (ok a, w)
  Keeps-done a w x = record { exact = x; unconstrained = λ e. cc }

  pub Keeps-and_then :
      {A B : Type 0} (r : Result Code A) (f : A → World p → Result Code B × World p) (w : World p)
      → CountersExact w.db
      → r ≢ err Code.integrity_error
      → ((a : A) → r ≡ ok a → Keeps (f a w))
      → Keeps (and_then p r f w)
  Keeps-and_then (ok a) f w x fine k = k a refl
  Keeps-and_then (err c) f w x fine k = Keeps-refusal c w x (λ e. fine (ap err e))
