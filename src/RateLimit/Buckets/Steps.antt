-- ===== src/RateLimit/Buckets/Steps.antt =====
-- What each operation on a scope's dict does to the invariant, and `record_event` as one equation.
use python_react_template.Prelude.{
  ℕ, ◌-◌, ◌≤◌, String, Bool, true, false, not, is_some, ◌≡◌, ◌≢◌, refl, inl, inr, Bool-cases,
  Option-cases, Option, none, some, [], ◌∷◌, ◌++◌, leb, length, arith, All, str_eq, eq_iff,
  str_eq_refl, if◌then◌else◌,
}
use python_react_template.RateLimit.Buckets.{
  Bucket, Buckets, lookup, erase, replace, trim, evict_expired_buckets, get_existing_bucket,
  drop_if_empty, create_bucket, move_or_create, append_now, add_bucket, get_or_create_bucket,
  record_event,
}
use python_react_template.RateLimit.Buckets.Window.{
  newest, trim-IsSorted, trim-All, newest-trim, newest_live,
}
use python_react_template.RateLimit.Buckets.Order.{
  IsOrdered, lookup-erase, erase-absent, erase-replace, replace-append,
}

abbrev pub or_empty : Option Bucket → Bucket
or_empty none = []
or_empty (some b) = b

-- The deque of a key, empty if there is none.
abbrev pub found : String → Buckets → Bucket
found k m = or_empty (lookup k m)

module _ (now window : ℕ) where
  IsOrdered-replace_head :
      (k : String) (b : Bucket) (m : Buckets)
      → IsOrdered now ((k, b) ∷ m)
      → trim now window b ≢ []
      → IsOrdered now ((k, trim now window b) ∷ m)
  IsOrdered-replace_head k b m h ne = (
    ne,
    trim-IsSorted now window b h.1,
    trim-All now window now b h.2,
    rw (newest-trim now window b h.1 ne) h.3,
    h.4,
    h.5,
  )

  All-replace-trim :
      (n : ℕ) (k : String) (b : Bucket) (m : Buckets)
      → IsOrdered now m
      → lookup k m ≡ some b
      → trim now window b ≢ []
      → All (λ (e : String × Bucket). n ≤ newest e.1) m
      → All (λ (e : String × Bucket). n ≤ newest e.1) (replace k (trim now window b) m)
  unfolding lookup replace
  All-replace-trim n k b [] o l ne h = tt
  All-replace-trim n k b ((i, c) ∷ m) o l ne h =
      ground (arith, All-replace-trim n k b m o.5, newest-trim now window c o.1, h.1)

  lookup-replace_ne :
      (i k : String) (b : Bucket) (m : Buckets)
      → str_eq i k ≡ false
      → lookup i (replace k b m) ≡ lookup i m
  unfolding lookup replace
  lookup-replace_ne i k b [] ne = refl
  lookup-replace_ne i k b ((j, c) ∷ m) ne =
      ground (arith, lookup-replace_ne i k b m ne, eq_iff j k, eq_iff j i, eq_iff i k)

  pub IsOrdered-replace :
      (k : String) (b : Bucket) (m : Buckets)
      → IsOrdered now m
      → lookup k m ≡ some b
      → trim now window b ≢ []
      → IsOrdered now (replace k (trim now window b) m)
  unfolding lookup replace
  IsOrdered-replace k b [] h l ne = tt
  IsOrdered-replace k b ((i, c) ∷ m) h l ne = elim (Bool-cases (str_eq i k)) [
    | inl same ↦ rw same (ground (arith, IsOrdered-replace_head i c m h))
    | inr other ↦ rw other (
      h.0,
      h.1,
      h.2,
      All-replace-trim (newest c) k b m h.5 (ground arith) ne h.3,
      rw (lookup-replace_ne i k (trim now window b) m other) h.4,
      IsOrdered-replace k b m h.5 (ground arith) ne,
    )
  ]

  -- `_get_existing_bucket` returns the trimmed deque ...
  pub get_existing_bucket-found :
      (k : String) (m : Buckets)
      → (get_existing_bucket now window k m).1 ≡ trim now window (found k m)
  unfolding get_existing_bucket trim
  get_existing_bucket-found k m = ground arith

  -- ... and the eviction of expired deques keeps the invariant,
  pub evict-IsOrdered :
      (max_buckets : ℕ) (m : Buckets)
      → IsOrdered now m
      → IsOrdered now (evict_expired_buckets now window max_buckets m)
  unfolding evict_expired_buckets
  evict-IsOrdered n [] h = tt
  evict-IsOrdered n ((k, b) ∷ m) h =
      ground (arith, evict-IsOrdered n m h.5, IsOrdered-replace_head k b m h)

  -- adds no key,
  pub lookup-evict_none :
      (max_buckets : ℕ) (k : String) (m : Buckets)
      → lookup k m ≡ none
      → lookup k (evict_expired_buckets now window max_buckets m) ≡ none
  unfolding evict_expired_buckets lookup
  lookup-evict_none n k [] h = refl
  lookup-evict_none n k ((i, b) ∷ m) h = ground (arith, lookup-evict_none n k m)

  All-live :
      (n : ℕ) (m : Buckets)
      → now - n ≤ window
      → All (λ (e : String × Bucket). n ≤ newest e.1) m
      → All (λ (e : String × Bucket). now - newest e.1 ≤ window) m
  All-live n [] h a = tt
  All-live n (e ∷ m) h a = (omega arith, All-live n m h a.1)

  -- and leaves the scope full only if every entry of it is live.
  pub evict_full :
      (max_buckets : ℕ) (m : Buckets)
      → IsOrdered now m
      → max_buckets ≤ length (evict_expired_buckets now window max_buckets m)
      → All
          (λ (e : String × Bucket). now - newest e.1 ≤ window)
          (evict_expired_buckets now window max_buckets m)
  unfolding evict_expired_buckets
  evict_full n [] h full = tt
  evict_full n ((k, b) ∷ m) h full = ground (
    arith,
    evict_full n m h.5,
    All-live (newest b) m,
    newest_live now window b h.1,
    newest-trim now window b h.1,
    h.3,
  )

  pub length-evict_le :
      (max_buckets : ℕ) (m : Buckets)
      → length (evict_expired_buckets now window max_buckets m) ≤ length m
  unfolding evict_expired_buckets
  length-evict_le n [] = omega arith
  length-evict_le n ((k, b) ∷ m) = ground (arith, length-evict_le n m)

  abbrev pub make_room : ℕ → Buckets → Buckets
  make_room n m = if leb n (length m) then evict_expired_buckets now window n m else m

  -- The dict after an event, without the detours: the deque of the key goes to the end, or the
  -- key gets a new one if there is room.
  abbrev pub after_event : ℕ → String → Bucket → Buckets → Buckets
  after_event n k [] m =
      if leb n (length (make_room n m)) then make_room n m else make_room n m ++ (k, now ∷ []) ∷ []
  after_event n k (t ∷ b) m = m ++ (k, t ∷ b ++ now ∷ []) ∷ []

  pub lookup-make_room :
      (n : ℕ) (k : String) (m : Buckets) → lookup k m ≡ none → lookup k (make_room n m) ≡ none
  lookup-make_room n k m h = ground (arith, lookup-evict_none n k m)

  pub erase_found : (k : String) (m : Buckets) → IsOrdered now m → lookup k (erase k m) ≡ none
  erase_found k m h = ground (arith, lookup-erase k k now m h, str_eq_refl k)

  create_bucket_lem :
      (n : ℕ) (k : String) (m : Buckets)
      → lookup k m ≡ none
      → append_now now window n k (create_bucket now window n k m) ≡ after_event n k [] m
  unfolding append_now create_bucket
  create_bucket_lem n k m h =
      ground (arith, replace-append k [] (now ∷ []) (make_room n m), lookup-make_room n k m)

  trimmed_lem :
      (n : ℕ) (k : String) (b : Bucket) (m : Buckets)
      → IsOrdered now m
      → append_now now window n k
          (let (m', c) = drop_if_empty now window k b m in move_or_create now window n k m' c)
        ≡ after_event n k b (erase k m)
  unfolding append_now move_or_create drop_if_empty
  trimmed_lem n k [] m h = create_bucket_lem n k (erase k m) (erase_found k m h)
  trimmed_lem n k (t ∷ b) m h =
      rw (erase-replace k (t ∷ b) m)
        (replace-append k (t ∷ b) (t ∷ b ++ now ∷ []) (erase k m) (erase_found k m h))

  pub record_event_lem :
      (n : ℕ) (k : String) (m : Buckets)
      → IsOrdered now m
      → record_event now window n k m ≡ after_event n k (trim now window (found k m)) (erase k m)
  unfolding record_event trim
  record_event_lem n k m h = elim (Option-cases (lookup k m)) [
    | inl absent ↦ rw (absent, erase-absent k m absent) (create_bucket_lem n k m absent)
    | inr (b, present) ↦ rw present (trimmed_lem n k (trim now window b) m h)
  ]

  -- Whether the key gets a bucket, from its trimmed deque and the other entries.
  abbrev pub admits : ℕ → Bucket → Buckets → Bool
  admits n [] m = not (leb n (length (make_room n m)))
  admits n (t ∷ b) m = true

  admits-created :
      (n : ℕ) (k : String) (m : Buckets)
      → is_some (create_bucket now window n k m).1 ≡ admits n [] m
  unfolding create_bucket add_bucket
  admits-created n k m = ground arith

  admits-trimmed :
      (n : ℕ) (k : String) (b : Bucket) (m : Buckets)
      → is_some
          (let (m', c) = drop_if_empty now window k b m in move_or_create now window n k m' c).1
        ≡ admits n b (erase k m)
  unfolding move_or_create drop_if_empty create_bucket add_bucket
  admits-trimmed n k [] m = ground arith
  admits-trimmed n k (t ∷ b) m = refl

  pub get_or_create_bucket-admits :
      (n : ℕ) (k : String) (m : Buckets)
      → IsOrdered now m
      → is_some (get_or_create_bucket now window n k m).1
        ≡ admits n (trim now window (found k m)) (erase k m)
  unfolding get_or_create_bucket trim
  get_or_create_bucket-admits n k m h = elim (Option-cases (lookup k m)) [
    | inl absent ↦ rw (absent, erase-absent k m absent) (admits-created n k m)
    | inr (b, present) ↦ rw present (admits-trimmed n k (trim now window b) m)
  ]
