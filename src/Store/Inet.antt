-- ===== src/Store/Inet.antt =====
-- `InetString` of backend/app/libraries/sqlalchemy_types.py. What it raises for a text that is no
-- address is left out: `resolve_client_ip` gives addresses only.
use Prim.Native.Char.{Char}
use Prim.Native.String.{[] as empty_text, ◌∷◌ as char_cons}
use python_react_template.Prelude.{String, Option, none, some, str_eq, if◌then◌else◌}
use python_react_template.Store.Exec.{Env}

-- `text.split(separator, maxsplit=1)[0]`, of one character.
unfoldable pub before_char : Char → String → String
before_char separator empty_text = ""
before_char separator (char_cons c text) =
    let rest = before_char separator text in
    if str_eq (char_cons c "") (char_cons separator "") then "" else char_cons c rest

-- `process_bind_param`
abbrev pub process_bind_param : Env → Option String → Option String
process_bind_param env none = none
process_bind_param env (some value) = some (env.ip_address (before_char "%" value))
