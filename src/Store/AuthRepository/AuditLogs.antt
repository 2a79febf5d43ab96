-- ===== src/Store/AuthRepository/AuditLogs.antt =====
-- The audit logs of backend/app/services/auth_repository.py. `detail_json` has the type of the
-- keys that this code writes, so the tests for values of other types fall away.
pub mod Replay
use python_react_template.Prelude.{
  ℕ, ◌+◌, ◌-◌, ◌*◌, ◌≤◌, max, String, Bool, true, false, not, ◌&&◌, ◌||◌, Option, none, some, List,
  [], ◌∷◌, ◌++◌, ◌==◌, ltb, leb, any, length, drop, keep, count_if, update_where, is_some, str_eq,
  if◌then◌else◌,
}
use python_react_template.Store.Rows.{
  AuthSession, AuthAuditLog, AuthEventType, session_rejected, Detail, ReplayDetail, replay, role,
  admin, oidc, Db,
}
use python_react_template.Store.Inet.{process_bind_param}
use python_react_template.Store.Exec.{
  Env, Exec, World, ok, err, pure, raise, query, draw, modify, raise_if, ◌>>=◌, ◌>>◌,
}

abbrev pub recent_replay_ip_limit : ℕ
recent_replay_ip_limit = 10

-- `_replay_detail_json`; `none` is the first replay.
unfoldable pub recent_ip_addresses : Option ReplayDetail → List String
recent_ip_addresses none = []
recent_ip_addresses (some d) = d.recent_ip_addresses

unfoldable pub distinct_ip_count : Option ReplayDetail → ℕ
distinct_ip_count none = 0
distinct_ip_count (some d) = max d.distinct_ip_count (length d.recent_ip_addresses)

unfoldable pub replay_count : Option ReplayDetail → ℕ
replay_count none = 0
replay_count (some d) = d.replay_count

-- `if ip_address is not None and ip_address not in recent_ip_addresses`
unfoldable pub is_new_ip : Option String → List String → Bool
is_new_ip none recent = false
is_new_ip (some ip) recent = not (any (str_eq ip) recent)

-- `xs[-RECENT_REPLAY_IP_LIMIT:]`
unfoldable pub last_limit : List String → List String
last_limit xs = drop (length xs - recent_replay_ip_limit) xs

unfoldable pub with_ip : Option String → List String → List String
unfolding last_limit
with_ip none recent = recent
with_ip (some ip) recent = last_limit (recent ++ ip ∷ [])

unfoldable pub replay_detail :
    Option ReplayDetail → Option String → Option String → ℕ → ℕ → ReplayDetail
unfolding recent_ip_addresses distinct_ip_count replay_count is_new_ip with_ip
replay_detail d ip_address user_agent replayed_at window_seconds =
    let recent = recent_ip_addresses d in
    let is_new = is_new_ip ip_address recent in
    record {
      distinct_ip_count = if is_new then distinct_ip_count d + 1 else distinct_ip_count d;
      last_ip_address = ip_address;
      last_user_agent = user_agent;
      last_replayed_at = replayed_at;
      recent_ip_addresses = if is_new then with_ip ip_address recent else recent;
      replay_count = replay_count d + 1;
      window_seconds = window_seconds;
    }

-- `detail_json` has the key `replay_count`.
abbrev pub replay_of : Option Detail → Option ReplayDetail
replay_of none = none
replay_of (some (replay d)) = some d
replay_of (some (role a t r rs)) = none
replay_of (some (admin a t f)) = none
replay_of (some (oidc p q e)) = none

abbrev pub is_session_rejected : AuthEventType → Bool
is_session_rejected session_rejected = true
is_session_rejected _ = false

abbrev pub is_of_session : ℕ → Option ℕ → Bool
is_of_session i none = false
is_of_session i (some j) = j == i

-- The `where` of the query for the log to aggregate into.
abbrev pub is_replay_log : ℕ → ℕ → AuthAuditLog → Bool
is_replay_log session_id window_started_at log =
    is_of_session session_id log.session_id
    && is_session_rejected log.event_type
    && leb window_started_at log.occurred_at
    && is_some (replay_of log.detail_json)

-- `order by occurred_at desc, id desc`
abbrev pub is_later : AuthAuditLog → AuthAuditLog → Bool
is_later a b = ltb b.occurred_at a.occurred_at || (a.occurred_at == b.occurred_at && ltb b.id a.id)

unfoldable pub later_of : AuthAuditLog → Option AuthAuditLog → AuthAuditLog
later_of a none = a
later_of a (some b) = if is_later a b then a else b

-- `limit 1` of the selected logs.
unfoldable pub latest : List AuthAuditLog → Option AuthAuditLog
unfolding later_of
latest [] = none
latest (a ∷ logs) = some (later_of a (latest logs))

module _ (env : Env) {L : Type 0} where
  -- `create_audit_log` of a new `AuthAuditLog`; `none` for `occurred_at` is its default.
  unfoldable pub occurrence : Option ℕ → Exec L ℕ
  occurrence none = draw env.utcnow
  occurrence (some t) = pure t

  unfoldable pub create_audit_log :
      Option ℕ
      → Option ℕ
      → AuthEventType
      → Option String
      → Option String
      → Option Detail
      → Option ℕ
      → Exec L Unit
  unfolding occurrence
  create_audit_log user_id session_id event_type ip_address user_agent detail_json occurred_at = do
    id ← draw env.uuid4
    at ← occurrence occurred_at
    let log : AuthAuditLog = record {
      id = id;
      user_id = user_id;
      session_id = session_id;
      event_type = event_type;
      ip_address = process_bind_param env ip_address;
      user_agent = user_agent;
      detail_json = detail_json;
      occurred_at = at;
    }
    modify (λ db. record db { audit_logs = db.audit_logs ++ log ∷ [] })

  -- A new log of the replay, or the count in the log that is there.
  unfoldable pub write_replay :
      AuthSession → Option String → Option String → ℕ → ℕ → Option AuthAuditLog → Exec L Unit
  unfolding create_audit_log replay_detail
  write_replay s ip_address user_agent replayed_at window_seconds none =
      create_audit_log (some s.user_id) (some s.id) session_rejected ip_address user_agent
        (some (replay (replay_detail none ip_address user_agent replayed_at window_seconds)))
        (some replayed_at)
  write_replay s ip_address user_agent replayed_at window_seconds (some log) =
      let detail =
        replay_detail (replay_of log.detail_json) ip_address user_agent replayed_at
          window_seconds in
      modify λ db. record db {
        audit_logs =
            update_where (λ r. r.id == log.id)
              (λ r. record r { detail_json = some (replay detail) }) db.audit_logs;
      }

  -- Nothing is written while another transaction holds the session's advisory lock.
  unfoldable pub record_rejected_session_replay :
      AuthSession → Option String → Option String → ℕ → ℕ → Exec L Unit
  unfolding write_replay latest
  record_rejected_session_replay s ip_address user_agent replayed_at window_seconds = do
    let window_started_at = replayed_at - window_seconds * 1000
    locked ← draw env.try_advisory_lock
    log ← query (λ db. latest (keep (is_replay_log s.id window_started_at) db.audit_logs))
    if locked then write_replay s ip_address user_agent replayed_at window_seconds log else pure tt

module _ {L : Type 0} where
  unfoldable pub delete_audit_logs_occurred_before : ℕ → Exec L ℕ
  delete_audit_logs_occurred_before occurred_before = do
    let old = λ (log : AuthAuditLog). ltb log.occurred_at occurred_before
    removed ← query (λ db. count_if old db.audit_logs)
    modify (λ db. record db { audit_logs = keep (λ log. not (old log)) db.audit_logs })
    pure removed
