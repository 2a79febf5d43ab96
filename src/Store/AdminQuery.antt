-- ===== src/Store/AdminQuery.antt =====
-- backend/app/models/admin_query.py: the search text of a `LIKE`.
use Prim.Native.Char.{Char, code}
use Prim.Native.String.{[] as empty_text, ◌∷◌ as char_cons, count}
use text.Mathlib.TextEquality.{Char-path}
use text.Mathlib.TextLemmas.{cons-append, nil-append}
use python_react_template.Prelude.{
  ℕ, String, Bool, true, false, ◌≡◌, refl, sym, ap, ◌∙◌, subst, inl, inr, arith, ◌==◌, List, [],
  ◌∷◌, Option, none, some, ltb, str_append, str_eq, Bool-cases, if◌then◌else◌,
}
use python_react_template.Store.Exec.{Result, ok, err, value_error, Env}

-- `normalize_admin_search`
unfoldable pub normalize_admin_search : Env → Option String → ℕ → Result (Option String)
normalize_admin_search env none max_length = ok none
normalize_admin_search env (some value) max_length =
    let normalized = env.strip value in
    if str_eq normalized ""
    then ok none
    else if ltb max_length (count normalized)
    then err value_error
    else ok (some normalized)

-- `text.replace(old, new)`, of a text of one character.
unfoldable pub replace_char : Char → String → String → String
replace_char old new empty_text = ""
replace_char old new (char_cons c text) =
    let rest = replace_char old new text in
    if code c == code old then str_append new rest else char_cons c rest

-- `escape_like_search`, with its default escape character.
unfoldable pub escape_like_search : String → String
unfolding replace_char
escape_like_search value =
    replace_char "_" "\\_" (replace_char "%" "\\%" (replace_char "\\" "\\\\" value))

-- What a character of a `LIKE` pattern with the escape character `\` stands for.
pub data Token : Type 0 where
  literal : Char → Token
  any_text any_char : Token

-- The reading of a pattern; `true` is the state behind an escape character.
unfoldable pub tokens : Bool → String → List Token
tokens escaped empty_text = []
tokens true (char_cons c text) = literal c ∷ tokens false text
tokens false (char_cons c text) =
    let behind = tokens true text in
    let rest = tokens false text in
    if code c == 92
    then behind
    else if code c == 37
    then any_text ∷ rest
    else if code c == 95
    then any_char ∷ rest
    else literal c ∷ rest

unfoldable pub literals : String → List Token
literals empty_text = []
literals (char_cons c text) = literal c ∷ literals text

char_of_code : (c d : Char) → (code c == code d) ≡ true → c ≡ d
char_of_code c d e = Char-path c d (ground (arith, e))

pair-append :
    (a b : Char) (text : String)
    → str_append (char_cons a (char_cons b empty_text)) text ≡ char_cons a (char_cons b text)
pair-append a b text =
    cons-append a (char_cons b empty_text) text
    ∙ ap (char_cons a) (cons-append b empty_text text ∙ ap (char_cons b) (nil-append text))

-- The three replacements act on each character apart.
escape_plain :
    (c : Char) (text : String)
    → (code c == 92) ≡ false
    → (code c == 37) ≡ false
    → (code c == 95) ≡ false
    → escape_like_search (char_cons c text) ≡ char_cons c (escape_like_search text)
unfolding escape_like_search replace_char
escape_plain c text a b d = rw (a, b, d) refl

escape_slash :
    (text : String)
    → escape_like_search (char_cons "\\" text)
      ≡ char_cons "\\" (char_cons "\\" (escape_like_search text))
unfolding escape_like_search replace_char
escape_slash text =
    ap (λ t. replace_char "_" "\\_" (replace_char "%" "\\%" t))
      (pair-append "\\" "\\" (replace_char "\\" "\\\\" text))

escape_percent :
    (text : String)
    → escape_like_search (char_cons "%" text)
      ≡ char_cons "\\" (char_cons "%" (escape_like_search text))
unfolding escape_like_search replace_char
escape_percent text =
    ap (replace_char "_" "\\_")
      (pair-append "\\" "%" (replace_char "%" "\\%" (replace_char "\\" "\\\\" text)))

escape_underscore :
    (text : String)
    → escape_like_search (char_cons "_" text)
      ≡ char_cons "\\" (char_cons "_" (escape_like_search text))
unfolding escape_like_search replace_char
escape_underscore text = pair-append "\\" "_" (escape_like_search text)

IsReadBack : String → Type 0
IsReadBack text = tokens false (escape_like_search text) ≡ literals text

-- A search text, escaped, is read by `LIKE` as the characters of the text and no wildcard.
pub tokens-escape_like_search :
    (text : String) → tokens false (escape_like_search text) ≡ literals text
unfolding tokens literals IsReadBack escape_like_search
tokens-escape_like_search empty_text = refl
tokens-escape_like_search (char_cons c text) =
    let rest = tokens-escape_like_search text in
    elim (Bool-cases (code c == 92)) [
      | inl slash ↦
          subst (λ d. IsReadBack (char_cons d text)) (sym (char_of_code c "\\" slash))
            (ap (tokens false) (escape_slash text) ∙ ap (λ ts. literal "\\" ∷ ts) rest)
      | inr a ↦ elim (Bool-cases (code c == 37)) [
        | inl percent ↦
            subst (λ d. IsReadBack (char_cons d text)) (sym (char_of_code c "%" percent))
              (ap (tokens false) (escape_percent text) ∙ ap (λ ts. literal "%" ∷ ts) rest)
        | inr b ↦ elim (Bool-cases (code c == 95)) [
          | inl underscore ↦
              subst (λ d. IsReadBack (char_cons d text)) (sym (char_of_code c "_" underscore))
                (ap (tokens false) (escape_underscore text) ∙ ap (λ ts. literal "_" ∷ ts) rest)
          | inr d ↦
              ap (tokens false) (escape_plain c text a b d)
              ∙ rw (a, b, d) (ap (λ ts. literal c ∷ ts) rest)
        ]
      ]
    ]
