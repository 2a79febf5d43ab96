-- ===== src/RateLimit/Buckets/Active.antt =====
-- The buckets against their abstract view: for each key, how many of its events lie in the
-- window. Trimming, evicting and moving entries do not show in it; recording an event does.
use python_react_template.Prelude.{
  ℕ, ◌+◌, ◌-◌, ◌≤◌, String, ◌≡◌, refl, ◌∙◌, sym, ap, inl, inr, Option-cases, none, some, [], ◌∷◌,
  ◌++◌, ◌&&◌, leb, arith, is_some, str_eq, eq_iff, if◌then◌else◌,
}
use python_react_template.RateLimit.Buckets.{
  Bucket, Buckets, lookup, erase, replace, trim, evict_expired_buckets, drop_if_empty,
  get_existing_bucket, get_or_create_bucket, record_event,
}
use python_react_template.RateLimit.Buckets.Window.{in_window, in_window-append, in_window-trim}
use python_react_template.RateLimit.Buckets.Order.{IsOrdered, IsOrdered-erase}
use python_react_template.RateLimit.Buckets.Steps.{
  or_empty, found, make_room, after_event, admits, get_or_create_bucket-admits, lookup-make_room,
  erase_found, record_event_lem,
}

module _ (later window : ℕ) where
  -- How many events of a key lie in the window at the time `later`.
  unfoldable pub active : String → Buckets → ℕ
  active k [] = 0
  active k ((j, b) ∷ m) = if str_eq j k then in_window later window b else active k m

  pub active-found : (k : String) (m : Buckets) → active k m ≡ in_window later window (found k m)
  unfolding active in_window lookup
  active-found k [] = refl
  active-found k ((j, b) ∷ m) = ground (arith, active-found k m)

  active_present :
      (k : String) (b : Bucket) (m : Buckets)
      → lookup k m ≡ some b
      → active k m ≡ in_window later window b
  active_present k b m e = active-found k m ∙ ap (λ o. in_window later window (or_empty o)) e

  active_absent : (k : String) (m : Buckets) → lookup k m ≡ none → active k m ≡ 0
  unfolding active lookup
  active_absent k [] h = refl
  active_absent k ((j, b) ∷ m) h = ground (arith, active_absent k m)

  pub active-erase :
      (now : ℕ) (j k : String) (m : Buckets)
      → IsOrdered now m
      → active j (erase k m) ≡ (if str_eq k j then 0 else active j m)
  unfolding active erase
  active-erase now j k [] h = ground arith
  active-erase now j k ((i, b) ∷ m) h =
      ground (
        arith,
        active-erase now j k m h.5,
        active_absent i m h.4,
        eq_iff i k,
        eq_iff i j,
        eq_iff k j,
      )

  active-append :
      (j k : String) (b : Bucket) (m : Buckets)
      → lookup k m ≡ none
      → active j (m ++ (k, b) ∷ []) ≡ (if str_eq k j then in_window later window b else active j m)
  unfolding active lookup
  active-append j k b [] h = ground arith
  active-append j k b ((i, c) ∷ m) h =
      ground (arith, active-append j k b m, eq_iff i k, eq_iff i j, eq_iff k j)

  active-replace :
      (j k : String) (b : Bucket) (m : Buckets)
      → in_window later window b ≡ in_window later window (found k m)
      → active j (replace k b m) ≡ active j m
  unfolding active replace lookup
  active-replace j k b [] h = refl
  active-replace j k b ((i, c) ∷ m) h =
      ground (arith, active-replace j k b m, eq_iff i k, eq_iff i j, eq_iff k j)

in_window_antitone :
    (t later window : ℕ) (b : Bucket) → t ≤ later → in_window later window b ≤ in_window t window b
unfolding in_window
in_window_antitone t later window [] le = omega arith
in_window_antitone t later window (u ∷ b) le =
    ground (arith, in_window_antitone t later window b le)

-- As time passes, events leave the window and none enters it.
pub active_antitone :
    (t later window : ℕ) (k : String) (m : Buckets)
    → t ≤ later
    → active later window k m ≤ active t window k m
unfolding active
active_antitone t later window k [] le = omega arith
active_antitone t later window k ((j, b) ∷ m) le =
    ground (arith, active_antitone t later window k m le, in_window_antitone t later window b le)

module _ (now window : ℕ) where
  module _ (later : ℕ) (passed : now ≤ later) where
    -- Eviction takes no event out of any window.
    pub active-evict :
        (n : ℕ) (j : String) (m : Buckets)
        → IsOrdered now m
        → active later window j (evict_expired_buckets now window n m) ≡ active later window j m
    unfolding active evict_expired_buckets in_window
    active-evict n j [] h = refl
    active-evict n j ((k, b) ∷ m) h = ground (
      arith,
      active-evict n j m h.5,
      in_window-trim now window later b,
      active_absent later window k m h.4,
      eq_iff k j,
    )

    active-drop_if_empty :
        (j k : String) (b : Bucket) (m : Buckets)
        → IsOrdered now m
        → in_window later window b ≡ active later window k m
        → active later window j (drop_if_empty now window k b m).0 ≡ active later window j m
    unfolding drop_if_empty in_window
    active-drop_if_empty j k [] m h e =
        ground (arith, active-erase later window now j k m h, eq_iff k j)
    active-drop_if_empty j k (t ∷ b) m h e =
        active-replace later window j k (t ∷ b) m (e ∙ active-found later window k m)

    -- Looking a bucket up takes no event out of any window.
    pub active-get_existing :
        (j k : String) (m : Buckets)
        → IsOrdered now m
        → active later window j (get_existing_bucket now window k m).0 ≡ active later window j m
    unfolding get_existing_bucket
    active-get_existing j k m h = elim (Option-cases (lookup k m)) [
      | inl absent ↦ rw absent
      | inr (b, present) ↦ rw present (
          active-drop_if_empty j k (trim now window b) m h (
            in_window-trim now window later b passed
            ∙ sym (active_present later window k b m present)))
    ]

    active-make_room :
        (n : ℕ) (j : String) (m : Buckets)
        → IsOrdered now m
        → active later window j (make_room now window n m) ≡ active later window j m
    active-make_room n j m h = ground (arith, active-evict n j m h)

    active-after_event :
        (n : ℕ) (j k : String) (b : Bucket) (m : Buckets)
        → IsOrdered now m
        → in_window later window b ≡ active later window k m
        → active later window j (after_event now window n k b (erase k m))
          ≡ active later window j m
            + (if str_eq k j && admits now window n b (erase k m)
                then (if leb (later - now) window then 1 else 0)
                else 0)
    unfolding in_window
    active-after_event n j k [] m h e = ground (
      arith,
      active-append later window j k (now ∷ []) (make_room now window n (erase k m)),
      lookup-make_room now window n k (erase k m),
      erase_found now window k m h,
      active-make_room n j (erase k m),
      IsOrdered-erase now k m h,
      active-erase later window now j k m h,
      eq_iff k j,
    )
    active-after_event n j k (t ∷ b) m h e = ground (
      arith,
      active-append later window j k (t ∷ b ++ now ∷ []) (erase k m),
      erase_found now window k m h,
      in_window-append later window now (t ∷ b),
      active-erase later window now j k m h,
      eq_iff k j,
    )

    -- On ordered buckets, recording an event adds one to the key's own count, as long as it is in
    -- the window and if the key gets a bucket, and leaves every other count as it was, at each
    -- later time.
    pub active-record_event :
        (n : ℕ) (j k : String) (m : Buckets)
        → IsOrdered now m
        → active later window j (record_event now window n k m)
          ≡ active later window j m
            + (if str_eq k j && is_some (get_or_create_bucket now window n k m).1
                then (if leb (later - now) window then 1 else 0)
                else 0)
    active-record_event n j k m h =
        rw (record_event_lem now window n k m h, get_or_create_bucket-admits now window n k m h)
          (active-after_event n j k (trim now window (found k m)) m h (
            in_window-trim now window later (found k m) passed
            ∙ sym (active-found later window k m)))
