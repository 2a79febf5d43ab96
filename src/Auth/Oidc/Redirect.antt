-- ===== src/Auth/Oidc/Redirect.antt =====
-- `_normalize_redirect_path` of backend/app/usecases/oauth_oidc_usecase.py. `urlparse` is a
-- parameter.
pub mod Normalized
use Prim.Native.String.{count}
use text.Mathlib.Text.{starts_with}
use python_react_template.Prelude.{
  ◌≤◌, ◌≡◌, ◌⊎◌, inl, inr, refl, arith, String, Bool, false, not, ◌||◌, ◌==◌, Option, none, some,
  [], ◌∷◌, ltb, leb, contains, has_part, any_char, rstrip_char, str_append, str_eq, eq_iff,
  Bool-cases, if◌then◌else◌,
}

-- The parts of `urlparse`'s result that the code reads.
pub record ParsedUrl : Type 0 where
  pub scheme : String
  pub netloc : String
  pub path : String
  pub query : String
  pub fragment : String

abbrev pub default_redirect_path : String
default_redirect_path = "/app"

-- `_has_ascii_control`
unfoldable pub has_ascii_control : String → Bool
unfolding any_char
has_ascii_control value = any_char (λ n. leb n 31 || n == 127) value

-- `"\\" in value`
unfoldable pub has_backslash : String → Bool
unfolding any_char
has_backslash value = any_char (λ n. n == 92) value

-- `text or other`
unfoldable pub or_else : String → String → String
or_else text other = if str_eq text "" then other else text

-- `f"{mark}{text}" if text else ""`
unfoldable pub marked : String → String → String
marked mark text = if str_eq text "" then "" else str_append mark text

-- What `urlparse` is not called for: too long, no absolute path, or with characters that browsers
-- treat apart.
unfoldable pub is_refused : String → Bool
unfolding has_ascii_control has_backslash
is_refused value =
    str_eq value ""
    || ltb 2048 (count value)
    || not (starts_with value "/")
    || has_backslash value
    || has_ascii_control value

module _ (urlparse : String → ParsedUrl) (lower : String → String) where
  -- The text that the parsed parts are put together to.
  unfoldable pub normalized : ParsedUrl → String
  unfolding or_else marked
  normalized parsed =
      str_append (or_else parsed.path "/")
        (str_append (marked "?" parsed.query) (marked "#" parsed.fragment))

  -- `/login` and `/register`, with any slashes behind and in any case.
  unfoldable pub is_auth_path : ParsedUrl → Bool
  unfolding or_else rstrip_char contains
  is_auth_path parsed =
      contains (lower (or_else (rstrip_char "/" parsed.path) "/")) ("/login" ∷ "/register" ∷ [])

  unfoldable pub redirect_for : ParsedUrl → String
  unfolding is_auth_path normalized
  redirect_for parsed =
      if not (str_eq parsed.scheme "") || not (str_eq parsed.netloc "")
      then default_redirect_path
      else if is_auth_path parsed
      then default_redirect_path
      else if ltb 2048 (count (normalized parsed))
      then default_redirect_path
      else normalized parsed

  unfoldable pub normalize_redirect_path : Option String → String
  unfolding is_refused redirect_for
  normalize_redirect_path none = default_redirect_path
  normalize_redirect_path (some value) =
      if is_refused value then default_redirect_path else redirect_for (urlparse value)

  pub redirect_for-cases :
      (p : ParsedUrl)
      → (redirect_for p ≡ default_redirect_path)
        ⊎ (p.scheme ≡ "")
          × (p.netloc ≡ "")
          × (is_auth_path p ≡ false)
          × (redirect_for p ≡ normalized p)
          × (count (normalized p) ≤ 2048)
  unfolding redirect_for
  redirect_for-cases p = elim (Bool-cases (not (str_eq p.scheme "") || not (str_eq p.netloc ""))) [
    | inl elsewhere ↦ inl (rw elsewhere refl)
    | inr here ↦ elim (Bool-cases (is_auth_path p)) [
      | inl auth_page ↦ inl (rw (here, auth_page) refl)
      | inr other_page ↦ elim (Bool-cases (ltb 2048 (count (normalized p)))) [
        | inl long ↦ inl (rw (here, other_page, long) refl)
        | inr short ↦ inr (
          ground (arith, eq_iff p.scheme "", here),
          ground (arith, eq_iff p.netloc "", here),
          other_page,
          rw (here, other_page, short) refl,
          ground (arith, short),
        )
      ]
    ]
  ]
