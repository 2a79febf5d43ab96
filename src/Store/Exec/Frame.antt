-- ===== src/Store/Exec/Frame.antt =====
-- Code that leaves a part of the database alone.
use python_react_template.Prelude.{◌≡◌, refl, ◌∙◌, Bool, true, false, if◌then◌else◌}
use python_react_template.Store.Rows.{Db}
use python_react_template.Store.Exec.{
  World, Exec, Result, ok, err, transaction, close_transaction, continue, ◌>>=◌,
}

module _ {X L A : Type 0} (part : Db → X) where
  abbrev pub Keeps : Exec L A → Type 0
  Keeps m = (w : World L) → part (m w).1.db ≡ part w.db

  close_transaction-Keeps :
      (before : Db) (r : Result A × World L)
      → part r.1.db ≡ part before
      → part (close_transaction before r).1.db ≡ part before
  close_transaction-Keeps before (ok a, w) h = h
  close_transaction-Keeps before (err e, w) h = refl

  run-Keeps :
      (b : Bool) (m : Exec L A) (w : World L)
      → Keeps m
      → part
          (if b then m w else close_transaction w.db (m (record w { in_transaction = true }))).1.db
        ≡ part w.db
  run-Keeps true m w keeps = keeps w
  run-Keeps false m w keeps =
      close_transaction-Keeps w.db (m (record w { in_transaction = true }))
        (keeps (record w { in_transaction = true }))

  pub transaction-Keeps : (m : Exec L A) → Keeps m → Keeps (transaction m)
  transaction-Keeps m keeps w = run-Keeps w.in_transaction m w keeps

module _ {X L A B : Type 0} (part : Db → X) where
  continue-Keeps :
      (r : Result A × World L) (f : A → Exec L B)
      → ((a : A) → Keeps part (f a))
      → part (continue r f).1.db ≡ part r.1.db
  continue-Keeps (ok a, w) f rest = rest a w
  continue-Keeps (err e, w) f rest = refl

  pub >>=-Keeps :
      (m : Exec L A) (f : A → Exec L B)
      → Keeps part m
      → ((a : A) → Keeps part (f a))
      → Keeps part (m >>= f)
  >>=-Keeps m f first rest w = continue-Keeps (m w) f rest ∙ first w
