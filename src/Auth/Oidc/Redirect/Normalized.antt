-- ===== src/Auth/Oidc/Redirect/Normalized.antt =====
-- What `_normalize_redirect_path` lets through.
use Prim.Native.Char.{Char, code}
use Prim.Native.String.{count, [] as empty_text, ◌∷◌ as char_cons}
use text.Mathlib.TextEquality.{starts_with_iff}
use text.Mathlib.Text.{starts_with}
use python_react_template.Prelude.{
  ℕ, zero, suc, ◌≤◌, ◌<◌, ◌≡◌, ◌≢◌, ◌⊎◌, ◌∙◌, sym, ap, inl, inr, refl, subst, arith, String, Bool,
  true, false, Option, none, some, any_char, rstrip_char, str_append, str_eq, eq_iff, Bool-cases,
  contains, if◌then◌else◌,
}
use python_react_template.Auth.Oidc.Redirect.{
  ParsedUrl, default_redirect_path, has_ascii_control, has_backslash, is_refused, or_else, marked,
  is_auth_path, redirect_for-cases, normalized, normalize_redirect_path,
}

-- No character is an ASCII control character or a backslash.
unfoldable pub IsPlain : String → Type 0
IsPlain empty_text = Unit
IsPlain (char_cons c text) = (31 < code c) × (code c ≢ 127) × (code c ≢ 92) × IsPlain text

unfoldable pub ends_in_slash : String → Bool
ends_in_slash empty_text = false
ends_in_slash (char_cons c empty_text) = str_eq (char_cons c "") "/"
ends_in_slash (char_cons c (char_cons d text)) = ends_in_slash (char_cons d text)

unfoldable pub slashes : ℕ → String
slashes zero = ""
slashes (suc n) = char_cons "/" (slashes n)

-- The text with slashes behind.
unfoldable pub with_slashes : String → ℕ → String
unfolding slashes
with_slashes empty_text n = slashes n
with_slashes (char_cons c text) n = char_cons c (with_slashes text n)

-- The path is the login or the register page, in any case and with any slashes behind.
pub record IsAuthPage (lower : String → String) (path : String) : Type 0 where
  pub page : String
  pub behind : ℕ
  pub is_path : path ≡ with_slashes page behind
  pub is_page : ends_in_slash page ≡ false
  pub is_some : page ≢ ""
  pub is_auth : (lower page ≡ "/login") ⊎ (lower page ≡ "/register")

-- A part of a URL with its mark, or nothing of an empty one.
pub data IsMarked (mark : String) : String → String → Type 0 where
  absent : IsMarked mark "" ""
  present : (text : String) → text ≢ "" → IsMarked mark text (str_append mark text)

-- The result is put together from the parts of a given absolute path. Nothing is said of a second
-- slash: the parsed path, and so the result, may start with two.
pub record IsNormalized (urlparse : String → ParsedUrl) (lower : String → String)
    (v result : String) : Type 0 where
  pub rest : String
  pub is_absolute : str_append "/" rest ≡ v
  pub is_plain : IsPlain v
  pub is_bounded : count v ≤ 2048
  pub no_scheme : (urlparse v).scheme ≡ ""
  pub no_host : (urlparse v).netloc ≡ ""
  pub no_auth_page : ¬ (IsAuthPage lower (urlparse v).path)
  pub path : String
  pub query : String
  pub fragment : String
  pub is_path :
      ((urlparse v).path ≡ "") × (path ≡ "/")
      ⊎ ((urlparse v).path ≢ "") × (path ≡ (urlparse v).path)
  pub is_query : IsMarked "?" (urlparse v).query query
  pub is_fragment : IsMarked "#" (urlparse v).fragment fragment
  pub is_result : result ≡ str_append path (str_append query fragment)
  pub is_short : count result ≤ 2048

plain : (text : String) → has_ascii_control text ≡ false → has_backslash text ≡ false → IsPlain text
unfolding IsPlain has_ascii_control has_backslash any_char
plain empty_text a b = tt
plain (char_cons c text) a b = (
  ground (arith, a),
  ground (arith, a),
  ground (arith, b),
  plain text (ground (arith, a)) (ground (arith, b)),
)

-- One character before what is left of the rest.
abbrev kept : Char → String → String
kept c rest = if str_eq (char_cons c rest) "/" then "" else char_cons c rest

rstrip-cons :
    (c : Char) (text : String) → rstrip_char "/" (char_cons c text) ≡ kept c (rstrip_char "/" text)
unfolding rstrip_char
rstrip-cons c text = refl

rstrip-slashes : (n : ℕ) → rstrip_char "/" (slashes n) ≡ ""
unfolding rstrip_char slashes
rstrip-slashes zero = refl
rstrip-slashes (suc n) = ap (kept "/") (rstrip-slashes n)

no-slash : (c d : Char) (text : String) → str_eq (char_cons c (char_cons d text)) "/" ≡ false
no-slash c d text = elim (Bool-cases (str_eq (char_cons c (char_cons d text)) "/")) [
  | inl e ↦ let same = (eq_iff (char_cons c (char_cons d text)) "/").0 e in absurd (cc)
  | inr e ↦ e
]

rstrip-page :
    (page : String) (n : ℕ)
    → ends_in_slash page ≡ false
    → rstrip_char "/" (with_slashes page n) ≡ page
unfolding ends_in_slash with_slashes
rstrip-page empty_text n e = rstrip-slashes n
rstrip-page (char_cons c empty_text) n e =
    rstrip-cons c (slashes n) ∙ ap (kept c) (rstrip-slashes n) ∙ rw e refl
rstrip-page (char_cons c (char_cons d text)) n e =
    rstrip-cons c (with_slashes (char_cons d text) n)
    ∙ ap (kept c) (rstrip-page (char_cons d text) n e)
    ∙ rw (no-slash c d text) refl

IsMarked-marked : (mark text : String) → IsMarked mark text (marked mark text)
unfolding marked
IsMarked-marked mark text = elim (Bool-cases (str_eq text "")) [
  | inl nothing ↦
      rw nothing (subst (λ t. IsMarked mark t "") (sym ((eq_iff text "").0 nothing)) absent)
  | inr something ↦ rw something (present text (ground (arith, eq_iff text "")))
]

module _ (urlparse : String → ParsedUrl) (lower : String → String) where
  no-IsAuthPage :
      (p : ParsedUrl) → is_auth_path urlparse lower p ≡ false → ¬ (IsAuthPage lower p.path)
  unfolding is_auth_path or_else contains
  no-IsAuthPage p e a =
      let same : rstrip_char "/" p.path ≡ a.page =
        ap (rstrip_char "/") a.is_path ∙ rstrip-page a.page a.behind a.is_page in
      ground (
        arith,
        same,
        a.is_some,
        a.is_auth,
        eq_iff a.page "",
        eq_iff (lower a.page) "/login",
        eq_iff (lower a.page) "/register",
      )

  path_cases :
      (path : String)
      → (path ≡ "") × (or_else path "/" ≡ "/") ⊎ (path ≢ "") × (or_else path "/" ≡ path)
  unfolding or_else
  path_cases path = elim (Bool-cases (str_eq path "")) [
    | inl nothing ↦ inl ((eq_iff path "").0 nothing, rw nothing refl)
    | inr something ↦ inr (ground (arith, eq_iff path ""), rw something refl)
  ]

  -- A redirect path is the default, or it is put together from the path, query and fragment of a
  -- given path of at most 2048 characters that starts with a slash and has no backslash and no
  -- control character, that parses without a scheme and a host, and that is neither the login nor
  -- the register page, with slashes behind or not. Then it has at most 2048 characters too.
  pub normalize_redirect_path_lem :
      (value : Option String)
      → (normalize_redirect_path urlparse lower value ≡ default_redirect_path)
        ⊎ (v : String) × (value ≡ some v)
          × IsNormalized urlparse lower v (normalize_redirect_path urlparse lower value)
  unfolding normalize_redirect_path is_refused normalized
  normalize_redirect_path_lem none = inl refl
  normalize_redirect_path_lem (some v) = elim (Bool-cases (is_refused v)) [
    | inl refused ↦ inl (rw refused refl)
    | inr fine ↦ elim (redirect_for-cases urlparse lower (urlparse v)) [
      | inl e ↦ inl (rw fine e)
      | inr (scheme, netloc, page, same, short) ↦
          let slash : starts_with v "/" ≡ true = ground (arith, fine) in
          let (rest, absolute) = (starts_with_iff v "/").0 slash in
          inr (
            v,
            refl,
            record {
              rest = rest;
              is_absolute = absolute;
              is_plain = plain v (ground (arith, fine)) (ground (arith, fine));
              is_bounded = ground (arith, fine);
              no_scheme = scheme;
              no_host = netloc;
              no_auth_page = no-IsAuthPage (urlparse v) page;
              path = or_else (urlparse v).path "/";
              query = marked "?" (urlparse v).query;
              fragment = marked "#" (urlparse v).fragment;
              is_path = path_cases (urlparse v).path;
              is_query = IsMarked-marked "?" (urlparse v).query;
              is_fragment = IsMarked-marked "#" (urlparse v).fragment;
              is_result = rw fine same;
              is_short = rw (fine, same) short;
            },
          )
    ]
  ]
