-- ===== src/RateLimit/Buckets/Window.antt =====
-- One bucket against its sliding window: `_trim` keeps exactly the timestamps in the window.
use python_react_template.Prelude.{
  ℕ, ◌-◌, ◌+◌, ◌≤◌, ◌<◌, max, ◌≡◌, ◌≢◌, refl, [], ◌∷◌, ◌++◌, leb, length, arith, All, if◌then◌else◌,
}
use python_react_template.RateLimit.Buckets.{Bucket, trim}

-- The timestamps of a deque never decrease.
abbrev pub IsSorted : Bucket → Type 0
IsSorted [] = Unit
IsSorted (t ∷ b) = All (λ u. t ≤ u) b × IsSorted b

-- The newest timestamp.
abbrev pub newest : Bucket → ℕ
newest [] = 0
newest (t ∷ b) = max t (newest b)

-- How many timestamps lie in the window at a time.
unfoldable pub in_window : ℕ → ℕ → Bucket → ℕ
in_window now window [] = 0
in_window now window (t ∷ b) =
    if leb (now - t) window then 1 + in_window now window b else in_window now window b

pub All-le_newest : (n : ℕ) (b : Bucket) → All (λ t. t ≤ n) b → newest b ≤ n
All-le_newest n [] h = omega arith
All-le_newest n (t ∷ b) h = omega (arith, All-le_newest n b h.1)

pub All-append_one : (n : ℕ) (b : Bucket) → All (λ t. t ≤ n) b → All (λ t. t ≤ n) (b ++ n ∷ [])
All-append_one n [] h = omega arith
All-append_one n (t ∷ b) h = (h.0, All-append_one n b h.1)

pub All-mono : (n m : ℕ) (b : Bucket) → n ≤ m → All (λ t. t ≤ n) b → All (λ t. t ≤ m) b
All-mono n m [] le h = tt
All-mono n m (t ∷ b) le h = (omega arith, All-mono n m b le h.1)

All-above-append :
    (s n : ℕ) (b : Bucket) → All (λ t. s ≤ t) b → s ≤ n → All (λ t. s ≤ t) (b ++ n ∷ [])
All-above-append s n [] h le = (le, tt)
All-above-append s n (t ∷ b) h le = (h.0, All-above-append s n b h.1 le)

pub IsSorted-append :
    (n : ℕ) (b : Bucket) → IsSorted b → All (λ t. t ≤ n) b → IsSorted (b ++ n ∷ [])
IsSorted-append n [] s h = (tt, tt)
IsSorted-append n (t ∷ b) s h = (All-above-append t n b s.0 h.0, IsSorted-append n b s.1 h.1)

pub newest-append : (n : ℕ) (b : Bucket) → All (λ t. t ≤ n) b → newest (b ++ n ∷ []) ≡ n
newest-append n [] h = omega arith
newest-append n (t ∷ b) h = omega (arith, newest-append n b h.1)

pub in_window-append :
    (now window n : ℕ) (b : Bucket)
    → in_window now window (b ++ n ∷ [])
      ≡ in_window now window b + (if leb (now - n) window then 1 else 0)
unfolding in_window
in_window-append now window n [] = ground arith
in_window-append now window n (t ∷ b) = ground (arith, in_window-append now window n b)

module _ (now window : ℕ) where
  All-live :
      (b : Bucket) (t : ℕ)
      → now - t ≤ window
      → All (λ u. t ≤ u) b
      → in_window now window b ≡ length b
  unfolding in_window
  All-live [] t h s = refl
  All-live (u ∷ b) t h s = ground (arith, All-live b t h s.1)

  -- On a sorted deque the trimmed length is the number of timestamps in the window.
  pub length-trim : (b : Bucket) → IsSorted b → length (trim now window b) ≡ in_window now window b
  unfolding trim in_window
  length-trim [] s = refl
  length-trim (t ∷ b) s = ground (arith, length-trim b s.1, All-live b t)

  -- What is trimmed at `now` is outside the window at every later time.
  pub in_window-trim :
      (later : ℕ) (b : Bucket)
      → now ≤ later
      → in_window later window (trim now window b) ≡ in_window later window b
  unfolding trim in_window
  in_window-trim later [] le = refl
  in_window-trim later (t ∷ b) le = ground (arith, in_window-trim later b le)

  pub trim-IsSorted : (b : Bucket) → IsSorted b → IsSorted (trim now window b)
  unfolding trim
  trim-IsSorted [] s = tt
  trim-IsSorted (t ∷ b) s = ground (arith, trim-IsSorted b s.1)

  pub trim-All : (n : ℕ) (b : Bucket) → All (λ t. t ≤ n) b → All (λ t. t ≤ n) (trim now window b)
  unfolding trim
  trim-All n [] h = tt
  trim-All n (t ∷ b) h = ground (arith, trim-All n b h.1)

  pub newest-trim :
      (b : Bucket) → IsSorted b → trim now window b ≢ [] → newest (trim now window b) ≡ newest b
  unfolding trim
  newest-trim [] s h = refl
  newest-trim (t ∷ []) s h = ground arith
  newest-trim (t ∷ u ∷ b) s h = ground (arith, newest-trim (u ∷ b) s.1)

  -- The newest timestamp of a deque that keeps one is in the window ...
  pub newest_live : (b : Bucket) → IsSorted b → trim now window b ≢ [] → now - newest b ≤ window
  unfolding trim
  newest_live [] s h = absurd (h refl)
  newest_live (t ∷ []) s h = ground arith
  newest_live (t ∷ u ∷ b) s h = ground (arith, newest_live (u ∷ b) s.1)

  -- ... and that of a deque which is emptied is not.
  pub newest_expired : (b : Bucket) → b ≢ [] → trim now window b ≡ [] → window < now - newest b
  unfolding trim
  newest_expired [] n h = absurd (n refl)
  newest_expired (t ∷ []) n h = ground arith
  newest_expired (t ∷ u ∷ b) n h = ground (arith, newest_expired (u ∷ b))
