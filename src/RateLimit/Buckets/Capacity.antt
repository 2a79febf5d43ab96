-- ===== src/RateLimit/Buckets/Capacity.antt =====
-- The cap on the number of buckets: the invariant under every operation, and exactly when a key
-- is turned away.
use python_react_template.Prelude.{
  ℕ, ◌+◌, ◌-◌, ◌≤◌, String, ◌≡◌, ◌≢◌, refl, ap, inl, inr, Option-cases, some, [], ◌∷◌, ◌++◌, ◌||◌,
  leb, ltb, length, length-append, arith, All, is_some, if◌then◌else◌,
}
use python_react_template.RateLimit.Buckets.{
  Bucket, Buckets, lookup, erase, replace, trim, evict_expired_buckets, drop_if_empty,
  get_existing_bucket, get_or_create_bucket, record_event,
}
use python_react_template.RateLimit.Buckets.Window.{
  IsSorted, newest, length-trim, newest-append, trim-IsSorted, trim-All, newest_live,
  newest_expired, newest-trim, IsSorted-append, All-append_one,
}
use python_react_template.RateLimit.Buckets.Order.{IsOrdered, IsOrdered-erase, IsOrdered-append}
use python_react_template.RateLimit.Buckets.Steps.{
  found, make_room, after_event, admits, get_or_create_bucket-admits, lookup-make_room, erase_found,
  record_event_lem, evict-IsOrdered, evict_full, length-evict_le, IsOrdered-replace,
}
use python_react_template.RateLimit.Buckets.Active.{active, active-found}

-- How many entries have an event in the window.
unfoldable pub live_entries : ℕ → ℕ → Buckets → ℕ
live_entries now window [] = 0
live_entries now window ((k, b) ∷ m) =
    if leb (now - newest b) window then 1 + live_entries now window m else live_entries now window m

module _ (now window : ℕ) where
  pub trimmed_found :
      (k : String) (m : Buckets)
      → IsOrdered now m
      → IsSorted (found k m) × All (λ t. t ≤ now) (found k m)
  unfolding lookup
  trimmed_found k [] h = (tt, tt)
  trimmed_found k ((i, b) ∷ m) h = ground (arith, trimmed_found k m h.5)

  pub get_existing_bucket-IsOrdered :
      (k : String) (m : Buckets)
      → IsOrdered now m
      → IsOrdered now (get_existing_bucket now window k m).0
  unfolding get_existing_bucket
  get_existing_bucket-IsOrdered k m h = elim (Option-cases (lookup k m)) [
    | inl absent ↦ rw absent h
    | inr (b, present) ↦ rw present (trimmed b (trim now window b) refl present)
  ]
    where
      trimmed :
          (b c : Bucket)
          → trim now window b ≡ c
          → lookup k m ≡ some b
          → IsOrdered now (drop_if_empty now window k c m).0
      trimmed b [] e p = IsOrdered-erase now k m h
      trimmed b (t ∷ c) e p = rw e at (IsOrdered-replace now window k b m h p (λ z. cc))

  make_room-IsOrdered :
      (n : ℕ) (m : Buckets) → IsOrdered now m → IsOrdered now (make_room now window n m)
  make_room-IsOrdered n m h = ground (arith, evict-IsOrdered now window n m h)

  -- Recording an event keeps the invariant.
  pub record_event-IsOrdered :
      (n : ℕ) (k : String) (m : Buckets)
      → IsOrdered now m
      → IsOrdered now (record_event now window n k m)
  record_event-IsOrdered n k m h = rw (record_event_lem now window n k m h) (
      after (trim now window (found k m))
        (trim-IsSorted now window (found k m) (trimmed_found k m h).0)
        (trim-All now window now (found k m) (trimmed_found k m h).1))
    where
      after :
          (b : Bucket)
          → IsSorted b
          → All (λ t. t ≤ now) b
          → IsOrdered now (after_event now window n k b (erase k m))
      after [] s a = ground (
        arith,
        make_room-IsOrdered n (erase k m) (IsOrdered-erase now k m h),
        IsOrdered-append now k (now ∷ []) (make_room now window n (erase k m)),
        lookup-make_room now window n k (erase k m),
        erase_found now window k m h,
      )
      after (t ∷ b) s a =
          IsOrdered-append now k (t ∷ b ++ now ∷ []) (erase k m) (λ e. cc)
            (IsSorted-append now (t ∷ b) s a) (All-append_one now (t ∷ b) a)
            (newest-append now (t ∷ b) a) (erase_found now window k m h) (IsOrdered-erase now k m h)

  length-erase : (k : String) (m : Buckets) → found k m ≢ [] → length (erase k m) + 1 ≡ length m
  unfolding lookup erase
  length-erase k [] h = absurd (h refl)
  length-erase k ((i, b) ∷ m) h = ground (arith, length-erase k m)

  pub length-erase_le : (k : String) (m : Buckets) → length (erase k m) ≤ length m
  unfolding erase
  length-erase_le k [] = omega arith
  length-erase_le k ((i, b) ∷ m) = ground (arith, length-erase_le k m)

  length-replace : (k : String) (b : Bucket) (m : Buckets) → length (replace k b m) ≡ length m
  unfolding replace
  length-replace k b [] = refl
  length-replace k b ((i, c) ∷ m) = ground (arith, length-replace k b m)

  pub length-get_existing_bucket_le :
      (k : String) (m : Buckets) → length (get_existing_bucket now window k m).0 ≤ length m
  unfolding get_existing_bucket trim
  length-get_existing_bucket_le k m = elim (Option-cases (lookup k m)) [
    | inl absent ↦ rw absent (omega arith)
    | inr (b, present) ↦ rw present (trimmed (trim now window b))
  ]
    where
      trimmed : (c : Bucket) → length (drop_if_empty now window k c m).0 ≤ length m
      trimmed [] = length-erase_le k m
      trimmed (t ∷ c) = omega (arith, length-replace k (t ∷ c) m)

  -- A scope never grows past its cap.
  pub length-record_event_le :
      (n : ℕ) (k : String) (m : Buckets)
      → IsOrdered now m
      → length m ≤ n
      → length (record_event now window n k m) ≤ n
  unfolding trim
  length-record_event_le n k m h le =
      rw (record_event_lem now window n k m h)
        (after (found k m) refl (trim now window (found k m)) refl)
    where
      after :
          (c : Bucket)
          → found k m ≡ c
          → (b : Bucket) → trim now window c ≡ b
          → length (after_event now window n k b (erase k m)) ≤ n
      after c e [] t = ground (
        arith,
        length-append (make_room now window n (erase k m)) ((k, now ∷ []) ∷ []),
        length-evict_le now window n (erase k m),
        length-erase_le k m,
      )
      after [] e (u ∷ b) t = absurd (cc)
      after (v ∷ c) e (u ∷ b) t =
          ground (arith, length-append (erase k m) ((k, u ∷ b ++ now ∷ []) ∷ []), length-erase k m)

  live-evict :
      (n : ℕ) (m : Buckets)
      → IsOrdered now m
      → live_entries now window (evict_expired_buckets now window n m) ≡ live_entries now window m
  unfolding live_entries evict_expired_buckets
  live-evict n [] h = refl
  live-evict n ((k, b) ∷ m) h = ground (
    arith,
    live-evict n m h.5,
    newest_live now window b h.1,
    newest_expired now window b h.0,
    newest-trim now window b h.1,
  )

  live-le : (m : Buckets) → live_entries now window m ≤ length m
  unfolding live_entries
  live-le [] = omega arith
  live-le ((k, b) ∷ m) = ground (arith, live-le m)

  All-live :
      (m : Buckets)
      → All (λ (e : String × Bucket). now - newest e.1 ≤ window) m
      → live_entries now window m ≡ length m
  unfolding live_entries
  All-live [] h = refl
  All-live ((k, b) ∷ m) h = ground (arith, All-live m h.1)

  live-erase :
      (k : String) (m : Buckets)
      → IsOrdered now m
      → trim now window (found k m) ≡ []
      → live_entries now window (erase k m) ≡ live_entries now window m
  unfolding live_entries erase lookup
  live-erase k [] h e = refl
  live-erase k ((i, b) ∷ m) h e =
      ground (arith, live-erase k m h.5, newest_expired now window b h.0)

  live-make_room :
      (n : ℕ) (m : Buckets)
      → IsOrdered now m
      → live_entries now window (make_room now window n m) ≡ live_entries now window m
  live-make_room n m h = ground (arith, live-evict n m h)

  room_full :
      (n : ℕ) (m : Buckets)
      → IsOrdered now m
      → n ≤ length (make_room now window n m)
      → live_entries now window m ≡ length (make_room now window n m)
  room_full n m h full = ground (
    arith,
    live-evict n m h,
    evict_full now window n m h,
    All-live (evict_expired_buckets now window n m),
  )

  -- On ordered buckets, a key gets a bucket exactly when it has an event in the window already, or
  -- fewer than `max_buckets` keys of the scope have one: an expired entry never keeps a key out.
  pub get_or_create_bucket-admitted :
      (n : ℕ) (k : String) (m : Buckets)
      → IsOrdered now m
      → is_some (get_or_create_bucket now window n k m).1
        ≡ (leb 1 (active now window k m) || ltb (live_entries now window m) n)
  get_or_create_bucket-admitted n k m h =
      rw (get_or_create_bucket-admits now window n k m h)
        (admitted (trim now window (found k m)) refl)
    where
      admitted :
          (b : Bucket)
          → trim now window (found k m) ≡ b
          → admits now window n b (erase k m)
            ≡ (leb 1 (active now window k m) || ltb (live_entries now window m) n)
      admitted [] e = ground (
        arith,
        ap (length {0}) e,
        length-trim now window (found k m) (trimmed_found k m h).0,
        active-found now window k m,
        live-erase k m h e,
        room_full n (erase k m) (IsOrdered-erase now k m h),
        live-make_room n (erase k m) (IsOrdered-erase now k m h),
        live-le (make_room now window n (erase k m)),
      )
      admitted (t ∷ b) e = ground (
        arith,
        ap (length {0}) e,
        length-trim now window (found k m) (trimmed_found k m h).0,
        active-found now window k m,
      )
