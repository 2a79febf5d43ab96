-- ===== src/RateLimit/Buckets.antt =====
-- The buckets of backend/app/libraries/auth_rate_limiter.py: an `OrderedDict` from keys to deques
-- of timestamps. The list keeps the dict's order, and the clock's floats are whole ticks. A
-- timestamp is never negative, so `now - t` cut off at 0 passes the test `> window` as the
-- source's does.
pub mod Window
pub mod Order
pub mod Steps
pub mod Active
pub mod Capacity
use python_react_template.Prelude.{
  ℕ, ◌-◌, String, Option, none, some, List, [], ◌∷◌, ◌++◌, ltb, leb, length, str_eq, if◌then◌else◌,
}

abbrev pub Bucket : Type 0
Bucket = List ℕ

abbrev pub Buckets : Type 0
Buckets = List (String × Bucket)

-- `buckets.get(key)`
unfoldable pub lookup : String → Buckets → Option Bucket
lookup k [] = none
lookup k ((j, b) ∷ m) = if str_eq j k then some b else lookup k m

-- `del buckets[key]`
unfoldable pub erase : String → Buckets → Buckets
erase k [] = []
erase k ((j, b) ∷ m) = if str_eq j k then m else (j, b) ∷ erase k m

-- A change of the deque that the dict holds for a key; the key stays where it is.
unfoldable pub replace : String → Bucket → Buckets → Buckets
replace k b [] = []
replace k b ((j, c) ∷ m) = if str_eq j k then (j, b) ∷ m else (j, c) ∷ replace k b m

module _ (now window : ℕ) where
  -- `_trim`: `while bucket and now - bucket[0] > window: bucket.popleft()`
  unfoldable pub trim : Bucket → Bucket
  trim [] = []
  trim (t ∷ b) = let rest = trim b in if ltb window (now - t) then rest else t ∷ b

  pub drop_if_empty : String → Bucket → Buckets → Buckets × Bucket
  drop_if_empty k [] m = (erase k m, [])
  drop_if_empty k (t ∷ b) m = (replace k (t ∷ b) m, t ∷ b)

  pub trim_found : String → Option Bucket → Buckets → Buckets × Bucket
  trim_found k none m = (m, [])
  trim_found k (some b) m = drop_if_empty k (trim b) m

  -- `_get_existing_bucket`: the buckets afterwards, and the deque.
  unfoldable pub get_existing_bucket : String → Buckets → Buckets × Bucket
  unfolding trim_found drop_if_empty
  get_existing_bucket k m = trim_found k (lookup k m) m

  module _ (max_buckets : ℕ) where
    -- `_evict_expired_buckets`
    pub evict_expired_buckets : Buckets → Buckets
    evict_expired_buckets [] = []
    evict_expired_buckets ((k, b) ∷ m) =
        let rest = evict_expired_buckets m in
        let inspected : Buckets = elim (trim b) [ [] ↦ rest | t ∷ c ↦ (k, t ∷ c) ∷ m ] in
        if leb max_buckets (length ((k, b) ∷ m)) then inspected else (k, b) ∷ m

    -- The new, empty deque, or `None` at the cap.
    pub add_bucket : String → Buckets → Buckets × Option Bucket
    add_bucket k m = if leb max_buckets (length m) then (m, none) else (m ++ (k, []) ∷ [], some [])

    pub create_bucket : String → Buckets → Buckets × Option Bucket
    unfolding add_bucket
    create_bucket k m =
        add_bucket k (if leb max_buckets (length m) then evict_expired_buckets m else m)

    pub move_or_create : String → Buckets → Bucket → Buckets × Option Bucket
    unfolding create_bucket
    move_or_create k m [] = create_bucket k m
    -- `buckets.move_to_end(key)`
    move_or_create k m (t ∷ b) = (erase k m ++ (k, t ∷ b) ∷ [], some (t ∷ b))

    -- `_get_or_create_bucket`
    unfoldable pub get_or_create_bucket : String → Buckets → Buckets × Option Bucket
    unfolding move_or_create get_existing_bucket
    get_or_create_bucket k m = let (m', b) = get_existing_bucket k m in move_or_create k m' b

    pub append_now : String → Buckets × Option Bucket → Buckets
    append_now k (m, none) = m
    append_now k (m, some b) = replace k (b ++ now ∷ []) m

    -- `bucket = self._get_or_create_bucket(...)`, then `bucket.append(now)` unless it is `None`:
    -- the deque is the one that the dict holds.
    unfoldable pub record_event : String → Buckets → Buckets
    unfolding append_now get_or_create_bucket
    record_event k m = append_now k (get_or_create_bucket k m)
