-- ===== src/RateLimit/Buckets/Order.antt =====
-- The invariant of one scope's dict: keys are unique, no deque is empty, timestamps are sorted and
-- not in the future, and the entries stand in the order of their newest timestamp, so that the
-- front entry is the one that expires first.
use python_react_template.Prelude.{
  ℕ, ◌≤◌, String, ◌≡◌, ◌≢◌, refl, inl, inr, Bool-cases, none, some, [], ◌∷◌, ◌++◌, arith, All,
  str_eq, eq_iff, str_eq_refl, if◌then◌else◌,
}
use python_react_template.RateLimit.Buckets.{Bucket, Buckets, lookup, erase, replace}
use python_react_template.RateLimit.Buckets.Window.{IsSorted, newest, All-mono, All-le_newest}

abbrev pub IsOrdered : ℕ → Buckets → Type 0
IsOrdered now [] = Unit
IsOrdered now ((k, b) ∷ m) =
    (b ≢ [])
    × IsSorted b
    × All (λ t. t ≤ now) b
    × All (λ (e : String × Bucket). newest b ≤ newest e.1) m
    × (lookup k m ≡ none)
    × IsOrdered now m

pub IsOrdered-mono : (n later : ℕ) (m : Buckets) → n ≤ later → IsOrdered n m → IsOrdered later m
IsOrdered-mono n later [] le h = tt
IsOrdered-mono n later ((k, b) ∷ m) le h =
    (h.0, h.1, All-mono n later b le h.2, h.3, h.4, IsOrdered-mono n later m le h.5)

pub lookup-erase :
    (j k : String) (now : ℕ) (m : Buckets)
    → IsOrdered now m
    → lookup j (erase k m) ≡ (if str_eq k j then none else lookup j m)
unfolding lookup erase
lookup-erase j k now [] h = ground arith
lookup-erase j k now ((i, b) ∷ m) h =
    ground (arith, lookup-erase j k now m h.5, eq_iff i k, eq_iff i j, eq_iff k j)

pub erase-absent : (k : String) (m : Buckets) → lookup k m ≡ none → erase k m ≡ m
unfolding lookup erase
erase-absent k [] h = refl
erase-absent k ((i, b) ∷ m) h = ground (arith, erase-absent k m)

pub erase-replace : (k : String) (b : Bucket) (m : Buckets) → erase k (replace k b m) ≡ erase k m
unfolding erase replace
erase-replace k b [] = refl
erase-replace k b ((i, c) ∷ m) = ground (arith, erase-replace k b m)

pub replace-append :
    (k : String) (b c : Bucket) (m : Buckets)
    → lookup k m ≡ none
    → replace k c (m ++ (k, b) ∷ []) ≡ m ++ (k, c) ∷ []
unfolding lookup replace
replace-append k b c [] h = ground (arith, str_eq_refl k)
replace-append k b c ((i, d) ∷ m) h = ground (arith, replace-append k b c m)

pub lookup-append :
    (j k : String) (b : Bucket) (m : Buckets)
    → lookup j m ≡ none
    → lookup j (m ++ (k, b) ∷ []) ≡ (if str_eq k j then some b else none)
unfolding lookup
lookup-append j k b [] h = refl
lookup-append j k b ((i, d) ∷ m) h = ground (arith, lookup-append j k b m)

All-erase :
    (n : ℕ) (k : String) (m : Buckets)
    → All (λ (e : String × Bucket). n ≤ newest e.1) m
    → All (λ (e : String × Bucket). n ≤ newest e.1) (erase k m)
unfolding erase
All-erase n k [] h = tt
All-erase n k ((i, b) ∷ m) h = ground (arith, All-erase n k m h.1)

pub IsOrdered-erase :
    (now : ℕ) (k : String) (m : Buckets) → IsOrdered now m → IsOrdered now (erase k m)
unfolding erase lookup
IsOrdered-erase now k [] h = tt
IsOrdered-erase now k ((i, b) ∷ m) h = elim (Bool-cases (str_eq i k)) [
  | inl same ↦ rw same h.5
  | inr other ↦ rw other (
    h.0,
    h.1,
    h.2,
    All-erase (newest b) k m h.3,
    ground (arith, lookup-erase i k now m h.5, eq_iff k i, eq_iff i k),
    IsOrdered-erase now k m h.5,
  )
]

All-append_newest :
    (n : ℕ) (k : String) (b : Bucket) (m : Buckets)
    → All (λ (e : String × Bucket). n ≤ newest e.1) m
    → n ≤ newest b
    → All (λ (e : String × Bucket). n ≤ newest e.1) (m ++ (k, b) ∷ [])
All-append_newest n k b [] h le = (le, tt)
All-append_newest n k b (e ∷ m) h le = (h.0, All-append_newest n k b m h.1 le)

pub IsOrdered-append :
    (now : ℕ) (k : String) (b : Bucket) (m : Buckets)
    → b ≢ []
    → IsSorted b
    → All (λ t. t ≤ now) b
    → newest b ≡ now
    → lookup k m ≡ none
    → IsOrdered now m
    → IsOrdered now (m ++ (k, b) ∷ [])
unfolding lookup
IsOrdered-append now k b [] n s a e l h = (n, s, a, tt, refl, tt)
IsOrdered-append now k b ((i, c) ∷ m) n s a e l h = (
  h.0,
  h.1,
  h.2,
  All-append_newest (newest c) k b m h.3 (omega (arith, All-le_newest now c h.2)),
  ground (arith, lookup-append i k b m h.4, eq_iff k i, eq_iff i k),
  IsOrdered-append now k b m n s a e (ground arith) h.5,
)
