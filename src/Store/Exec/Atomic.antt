-- ===== src/Store/Exec/Atomic.antt =====
-- Code that changes the database in a transaction only.
use python_react_template.Prelude.{◌≡◌, ◌≢◌, refl, ◌∙◌, inl, inr, arith, true, false, Bool-cases}
use python_react_template.Store.Exec.{
  Db, World, Exec, Result, ok, err, Error, transaction, close_transaction, continue, ◌>>=◌,
}
use python_react_template.Store.Exec.Laws.{db-transaction_err}

module _ {L A : Type 0} where
  -- Code that writes nothing.
  abbrev pub IsQuiet : Exec L A → Type 0
  IsQuiet m = (w : World L) → ((m w).1.db ≡ w.db) × ((m w).1.in_transaction ≡ w.in_transaction)

  -- Code that leaves the tables as they were if it raises, outside a transaction.
  abbrev pub IsAtomic : Exec L A → Type 0
  IsAtomic m =
      (w : World L) (e : Error) → w.in_transaction ≡ false → (m w).0 ≡ err e → (m w).1.db ≡ w.db

  pub transaction-IsAtomic : (m : Exec L A) → IsAtomic (transaction m)
  transaction-IsAtomic m w e outside h = db-transaction_err m w outside h

  pub IsAtomic-IsQuiet : (m : Exec L A) → IsQuiet m → IsAtomic m
  IsAtomic-IsQuiet m quiet w e outside h = (quiet w).0

module _ {L A B : Type 0} where
  continue-IsQuiet :
      (r : Result A × World L) (f : A → Exec L B)
      → ((a : A) → IsQuiet (f a))
      → ((continue r f).1.db ≡ r.1.db) × ((continue r f).1.in_transaction ≡ r.1.in_transaction)
  continue-IsQuiet (ok a, w) f quiet = quiet a w
  continue-IsQuiet (err e, w) f quiet = (refl, refl)

  pub >>=-IsQuiet :
      (m : Exec L A) (f : A → Exec L B) → IsQuiet m → ((a : A) → IsQuiet (f a)) → IsQuiet (m >>= f)
  >>=-IsQuiet m f first rest w =
      let (db, transaction) = continue-IsQuiet (m w) f rest in
      let (db_before, transaction_before) = first w in
      (db ∙ db_before, transaction ∙ transaction_before)

  continue-IsAtomic :
      (r : Result A × World L) (f : A → Exec L B) (e : Error)
      → r.1.in_transaction ≡ false
      → ((a : A) → IsAtomic (f a))
      → (continue r f).0 ≡ err e
      → (continue r f).1.db ≡ r.1.db
  continue-IsAtomic (ok a, w) f e outside rest h = rest a w e outside h
  continue-IsAtomic (err x, w) f e outside rest h = refl

  pub >>=-IsAtomic :
      (m : Exec L A) (f : A → Exec L B)
      → IsQuiet m
      → ((a : A) → IsAtomic (f a))
      → IsAtomic (m >>= f)
  >>=-IsAtomic m f first rest w e outside h =
      let (same, transaction) = first w in
      continue-IsAtomic (m w) f e (transaction ∙ outside) rest h ∙ same

module _ {L A : Type 0} where
  close_transaction-outside :
      (d : Db) (r : Result A × World L) → (close_transaction d r).1.in_transaction ≡ false
  close_transaction-outside d (ok a, w) = refl
  close_transaction-outside d (err e, w) = refl

  pub transaction-outside :
      (m : Exec L A) (w : World L)
      → w.in_transaction ≡ false
      → (transaction m w).1.in_transaction ≡ false
  transaction-outside m w outside = elim (Bool-cases w.in_transaction) [
    | inl inside ↦ absurd (ground (arith, inside, outside))
    | inr e ↦ rw e (close_transaction-outside w.db (m (record w { in_transaction = true })))
  ]

module _ {L A B : Type 0} where
  continue-last :
      (r : Result A × World L) (f : A → Exec L B) (e : Error) (d : Db)
      → ((a : A) (v : World L) → (f a v).0 ≢ err e)
      → ((x : Error) → r.0 ≡ err x → r.1.db ≡ d)
      → (continue r f).0 ≡ err e
      → (continue r f).1.db ≡ d
  continue-last (ok a, w) f e d never kept h = absurd (never a w h)
  continue-last (err x, w) f e d never kept h = kept x refl

  -- A last part that cannot raise takes nothing from it.
  pub >>=-IsAtomic_last :
      (m : Exec L A) (f : A → Exec L B)
      → IsAtomic m
      → ((a : A) (v : World L) (e : Error) → (f a v).0 ≢ err e)
      → IsAtomic (m >>= f)
  >>=-IsAtomic_last m f first never w e outside h =
      continue-last (m w) f e w.db (λ a v. never a v e) (λ x. first w x outside) h
