-- ===== src/Store/AuthRepository/AuditLogs/Replay.antt =====
-- The replays that a log counts.
use python_react_template.Prelude.{
  ℕ, ◌-◌, ◌≤◌, ◌≡◌, refl, subst, zero, suc, arith, String, Option, none, some, List, [], ◌∷◌, ◌++◌,
  length, drop, length-append, any,
}
use python_react_template.Store.Rows.{ReplayDetail}
use python_react_template.Store.AuthRepository.AuditLogs.{
  recent_replay_ip_limit, recent_ip_addresses, distinct_ip_count, replay_count, is_new_ip,
  last_limit, with_ip, replay_detail,
}

length-drop : (n : ℕ) (xs : List String) → length (drop n xs) ≡ length xs - n
length-drop zero xs = omega arith
length-drop (suc n) [] = omega arith
length-drop (suc n) (x ∷ xs) = omega (arith, length-drop n xs)

length-last_limit : (xs : List String) → length (last_limit xs) ≤ recent_replay_ip_limit
unfolding last_limit
length-last_limit xs = omega (arith, length-drop (length xs - recent_replay_ip_limit) xs)

-- A log that counts each replay, and remembers at most ten addresses and no more than it counts.
pub record IsReplayLog (d : ReplayDetail) (replays : ℕ) : Type 0 where
  pub counted : d.replay_count ≡ replays
  pub recent : length d.recent_ip_addresses ≤ recent_replay_ip_limit
  pub distinct : length d.recent_ip_addresses ≤ d.distinct_ip_count
  pub bounded : d.distinct_ip_count ≤ replays

-- The log after some replays, each with its address, agent and time, the latest one first.
unfoldable pub replayed : ℕ → List (Option String × Option String × ℕ) → Option ReplayDetail
unfolding replay_detail
replayed window_seconds [] = none
replayed window_seconds ((ip_address, user_agent, at) ∷ replays) =
    some (replay_detail (replayed window_seconds replays) ip_address user_agent at window_seconds)

replay_detail-IsReplayLog :
    (o : Option ReplayDetail) (n : ℕ) (ip ua : Option String) (t window : ℕ)
    → ((d : ReplayDetail) → o ≡ some d → IsReplayLog d n)
    → (o ≡ none → n ≡ 0)
    → IsReplayLog (replay_detail o ip ua t window) (suc n)
unfolding replay_detail any with_ip is_new_ip recent_ip_addresses distinct_ip_count replay_count
replay_detail-IsReplayLog none n none ua t window h z = record {
  counted = ground (arith, z refl);
  recent = omega arith;
  distinct = omega arith;
  bounded = omega arith;
}
replay_detail-IsReplayLog none n (some ip) ua t window h z = record {
  counted = ground (arith, z refl);
  recent = ground arith;
  distinct = ground arith;
  bounded = ground arith;
}
replay_detail-IsReplayLog (some d) n none ua t window h z =
    let old = h d refl in
    record {
      counted = omega (arith, old.counted);
      recent = old.recent;
      distinct = ground arith;
      bounded = ground (arith, old.distinct, old.bounded);
    }
replay_detail-IsReplayLog (some d) n (some ip) ua t window h z =
    let old = h d refl in
    let xs = d.recent_ip_addresses ++ ip ∷ [] in
    let dropped = length-drop (length xs - recent_replay_ip_limit) xs in
    let longer = length-append d.recent_ip_addresses (ip ∷ []) in
    record {
      counted = omega (arith, old.counted);
      recent = ground (arith, dropped, old.recent);
      distinct = ground (arith, dropped, longer);
      bounded = ground (arith, old.distinct, old.bounded);
    }

module _ (window_seconds : ℕ) where
  replayed-none :
      (rs : List (Option String × Option String × ℕ))
      → replayed window_seconds rs ≡ none
      → length rs ≡ 0
  unfolding replayed
  replayed-none [] e = refl
  replayed-none (r ∷ rs) e = cc

  replayed-some :
      (rs : List (Option String × Option String × ℕ)) (d : ReplayDetail)
      → replayed window_seconds rs ≡ some d
      → IsReplayLog d (length rs)
  unfolding replayed
  replayed-some [] d e = cc
  replayed-some ((ip, ua, t) ∷ rs) d e =
      subst (λ x. IsReplayLog x (length ((ip, ua, t) ∷ rs))) (ground arith)
        (replay_detail-IsReplayLog (replayed window_seconds rs) (length rs) ip ua t window_seconds
          (replayed-some rs) (replayed-none rs))

  -- A log that aggregates a number of replays, not 0, counts all of them, whatever their addresses
  -- were, and keeps at most ten addresses, no more than the distinct ones that it counts, which
  -- are no more than the replays.
  pub replayed-IsReplayLog :
      (r : Option String × Option String × ℕ) (replays : List (Option String × Option String × ℕ))
      → (d : ReplayDetail) × (replayed window_seconds (r ∷ replays) ≡ some d)
        × IsReplayLog d (length (r ∷ replays))
  unfolding replayed
  replayed-IsReplayLog (ip, ua, t) replays =
      let d = replay_detail (replayed window_seconds replays) ip ua t window_seconds in
      (d, refl, replayed-some ((ip, ua, t) ∷ replays) d refl)
