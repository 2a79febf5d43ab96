-- ===== src/Store/Exec/Laws.antt =====
-- Running a body in a transaction.
use python_react_template.Prelude.{◌≡◌, refl, ap, Bool, true, false, arith, if◌then◌else◌}
use python_react_template.Store.Rows.{Db}
use python_react_template.Store.Exec.{
  World, Exec, Result, ok, err, Error, transaction, close_transaction, continue, ◌>>=◌,
}

module _ {L A : Type 0} where
  ok-close_transaction :
      (before : Db) (r : Result A × World L) {a : A}
      → (close_transaction before r).0 ≡ ok a
      → r.0 ≡ ok a
  ok-close_transaction before (ok b, w) h = h
  ok-close_transaction before (err e, w) h = cc

  pick :
      (b : Bool) (m : Exec L A) (w : World L) {a : A}
      → w.in_transaction ≡ b
      → (if b then m w else close_transaction w.db (m (record w { in_transaction = true }))).0
        ≡ ok a
      → (t : Bool) × ((m (record w { in_transaction = t })).0 ≡ ok a)
  pick true m w e h = (w.in_transaction, h)
  pick false m w e h = (true, ok-close_transaction w.db (m (record w { in_transaction = true })) h)

  -- A transaction that succeeds ran its body on the same tables.
  pub transaction-ok :
      (m : Exec L A) (w : World L) {a : A}
      → (transaction m w).0 ≡ ok a
      → (t : Bool) × ((m (record w { in_transaction = t })).0 ≡ ok a)
  transaction-ok m w h = pick w.in_transaction m w refl h

  pick_db :
      (b : Bool) (m : Exec L A) (w : World L) {a : A}
      → w.in_transaction ≡ b
      → let r : Result A × World L =
          if b then m w else close_transaction w.db (m (record w { in_transaction = true })) in
        r.0 ≡ ok a
        → (t : Bool) × ((m (record w { in_transaction = t })).0 ≡ ok a)
          × (r.1.db ≡ (m (record w { in_transaction = t })).1.db)
  pick_db true m w e h = (w.in_transaction, h, refl)
  pick_db false m w e h =
      (true, ok-close_transaction w.db (m (record w { in_transaction = true })) h, ground arith)

  -- A transaction that succeeds leaves the tables that its body left.
  pub transaction-committed :
      (m : Exec L A) (w : World L) {a : A}
      → (transaction m w).0 ≡ ok a
      → (t : Bool) × ((m (record w { in_transaction = t })).0 ≡ ok a)
        × ((transaction m w).1.db ≡ (m (record w { in_transaction = t })).1.db)
  transaction-committed m w h = pick_db w.in_transaction m w refl h

  pub db-transaction_err :
      (m : Exec L A) (w : World L) {e : Error}
      → w.in_transaction ≡ false
      → (transaction m w).0 ≡ err e
      → (transaction m w).1.db ≡ w.db
  db-transaction_err m w o h = ground arith

  run_closed :
      (b : Bool) (m : Exec L A) (w : World L) {a : A}
      → w.in_transaction ≡ b
      → ((t : Bool) → (m (record w { in_transaction = t })).0 ≡ ok a)
      → let r : Result A × World L =
          if b then m w else close_transaction w.db (m (record w { in_transaction = true })) in
        (t : Bool) × (r.0 ≡ ok a) × (r.1.db ≡ (m (record w { in_transaction = t })).1.db)
  run_closed true m w e h = (w.in_transaction, h w.in_transaction, refl)
  run_closed false m w e h = (true, ground (arith, h true), ground (arith, h true))

  -- A body that cannot raise does in a transaction what it does outside.
  pub transaction-runs :
      (m : Exec L A) (w : World L) {a : A}
      → ((t : Bool) → (m (record w { in_transaction = t })).0 ≡ ok a)
      → (t : Bool) × ((transaction m w).0 ≡ ok a)
        × ((transaction m w).1.db ≡ (m (record w { in_transaction = t })).1.db)
  transaction-runs m w h = run_closed w.in_transaction m w refl h

module _ {L A B : Type 0} where
  continue-ok :
      (r : Result A × World L) (f : A → Exec L B) {b : B}
      → (continue r f).0 ≡ ok b
      → (a : A) × (r.0 ≡ ok a) × ((f a r.1).0 ≡ ok b) × (continue r f ≡ f a r.1)
  continue-ok (ok a, w) f h = (a, refl, h, refl)
  continue-ok (err e, w) f h = cc

  -- A sequence that succeeds has succeeded in both parts.
  pub >>=-ok :
      (m : Exec L A) (f : A → Exec L B) (w : World L) {b : B}
      → ((m >>= f) w).0 ≡ ok b
      → (a : A) × ((m w).0 ≡ ok a) × ((f a (m w).1).0 ≡ ok b) × ((m >>= f) w ≡ f a (m w).1)
  >>=-ok m f w h = continue-ok (m w) f h

  continue-run :
      (r : Result A × World L) (f : A → Exec L B) {a : A} → r.0 ≡ ok a → continue r f ≡ f a r.1
  continue-run (ok b, w) f {a} h = let same : b ≡ a = cc in ap (λ x. f x w) same
  continue-run (err e, w) f h = cc

  continue-err :
      (r : Result A × World L) (f : A → Exec L B) {e : Error}
      → r.0 ≡ err e
      → (continue r f).0 ≡ err e
  continue-err (ok b, w) f h = cc
  continue-err (err e, w) f h = cc

  -- A sequence goes on from a first part that succeeds, and ends with one that raises.
  pub >>=-run :
      (m : Exec L A) (f : A → Exec L B) (w : World L) {a : A}
      → (m w).0 ≡ ok a
      → (m >>= f) w ≡ f a (m w).1
  >>=-run m f w h = continue-run (m w) f h

  pub >>=-err :
      (m : Exec L A) (f : A → Exec L B) (w : World L) {e : Error}
      → (m w).0 ≡ err e
      → ((m >>= f) w).0 ≡ err e
  >>=-err m f w h = continue-err (m w) f h
