-- ===== src/Prelude/Texts.antt =====
-- Python's lists and sets of texts, as lists: `in`, `dict.fromkeys`, `sorted`.
use Prim.Native.Nat.{ℕ, zero, suc, Ordering, compare as compare_ℕ}
use Prim.Native.Char.{Char, code}
use Prim.Native.String.{
  String, compare, len, find as position, ◌++◌ as str_append, [] as empty_text, ◌∷◌ as char_cons,
}
use mathlib.Core.Path.{◌≡◌, refl}
use mathlib.Core.Bool.{Bool, true, false, not, ◌&&◌, ◌||◌}
use mathlib.Core.List.{List, [], ◌∷◌}
use native.Mathlib.Omega.{arith}
use text.Mathlib.Text.{◌==◌ as str_eq}
use text.Mathlib.TextEquality.{eq_iff}
use python_react_template.Prelude.Tests.{if◌then◌else◌}
use python_react_template.Prelude.Lists.{keep}

-- `part in text`
unfoldable pub has_part : String → String → Bool
has_part part text = elim (compare_ℕ (position text part) (len text)) [
  | Ordering.gt ↦ false
  | _ ↦ true
]

-- `text.rstrip(char)`, of one character.
unfoldable pub rstrip_char : Char → String → String
rstrip_char char_off empty_text = ""
rstrip_char char_off (char_cons c text) =
    let rest = rstrip_char char_off text in
    if str_eq (char_cons c rest) (char_cons char_off empty_text) then "" else char_cons c rest

-- `any(test(ord(character)) for character in text)`
unfoldable pub any_char : (ℕ → Bool) → String → Bool
any_char test empty_text = false
any_char test (char_cons c text) = test (code c) || any_char test text

-- `text[:n]`
unfoldable pub first_chars : ℕ → String → String
first_chars n empty_text = ""
first_chars zero (char_cons c text) = ""
first_chars (suc n) (char_cons c text) = char_cons c (first_chars n text)

-- `text[n:]`
unfoldable pub drop_chars : ℕ → String → String
drop_chars n empty_text = ""
drop_chars zero (char_cons c text) = char_cons c text
drop_chars (suc n) (char_cons c text) = drop_chars n text

-- `text.startswith(part)`
unfoldable pub starts_with : String → String → Bool
starts_with part text = elim (position text part) [ zero ↦ true | suc _ ↦ false ]

abbrev pub push_char : Char → List String → List String
push_char c [] = char_cons c "" ∷ []
push_char c (part ∷ parts) = char_cons c part ∷ parts

-- `text.split(separator)`, of one character.
unfoldable pub split_on : Char → String → List String
split_on separator empty_text = "" ∷ []
split_on separator (char_cons c text) =
    let parts = split_on separator text in
    if str_eq (char_cons c "") (char_cons separator "") then "" ∷ parts else push_char c parts

-- `",".join(parts)`
unfoldable pub comma_join : List String → String
comma_join [] = ""
comma_join (part ∷ []) = part
comma_join (part ∷ next ∷ parts) = str_append part (str_append "," (comma_join (next ∷ parts)))

-- `x in xs`
unfoldable pub contains : String → List String → Bool
contains x [] = false
contains x (y ∷ ys) = str_eq x y || contains x ys

-- `tuple(dict.fromkeys(xs))`: each element once, where it came first.
unfoldable pub dedupe : List String → List String
unfolding keep
dedupe [] = []
dedupe (x ∷ xs) = x ∷ keep (λ y. not (str_eq x y)) (dedupe xs)

-- The order of Python's texts, by code points.
abbrev pub str_leb : String → String → Bool
str_leb x y = elim (compare x y) [ Ordering.gt ↦ false | _ ↦ true ]

unfoldable pub insert_sorted : String → List String → List String
insert_sorted x [] = x ∷ []
insert_sorted x (y ∷ ys) = if str_leb x y then x ∷ y ∷ ys else y ∷ insert_sorted x ys

-- `sorted(xs)`
unfoldable pub sorted : List String → List String
unfolding insert_sorted
sorted [] = []
sorted (x ∷ xs) = insert_sorted x (sorted xs)

-- `frozenset(xs) - frozenset(ys)`
unfoldable pub set_minus : List String → List String → List String
unfolding dedupe keep contains
set_minus xs ys = dedupe (keep (λ x. not (contains x ys)) xs)

pub contains-keep :
    (p : String → Bool) (x : String) (xs : List String)
    → contains x (keep p xs) ≡ (p x && contains x xs)
unfolding contains keep
contains-keep p x [] = ground arith
contains-keep p x (y ∷ ys) = ground (arith, contains-keep p x ys, eq_iff x y)

pub contains-dedupe : (x : String) (xs : List String) → contains x (dedupe xs) ≡ contains x xs
unfolding contains dedupe
contains-dedupe x [] = refl
contains-dedupe x (y ∷ ys) = ground (
  arith,
  contains-keep (λ z. not (str_eq y z)) x (dedupe ys),
  contains-dedupe x ys,
  eq_iff x y,
  eq_iff y x,
)

pub contains-insert_sorted :
    (x y : String) (ys : List String)
    → contains x (insert_sorted y ys) ≡ (str_eq x y || contains x ys)
unfolding contains insert_sorted
contains-insert_sorted x y [] = refl
contains-insert_sorted x y (z ∷ zs) = ground (arith, contains-insert_sorted x y zs)

pub contains-sorted : (x : String) (xs : List String) → contains x (sorted xs) ≡ contains x xs
unfolding contains sorted
contains-sorted x [] = refl
contains-sorted x (y ∷ ys) =
    ground (arith, contains-insert_sorted x y (sorted ys), contains-sorted x ys)

pub contains-set_minus :
    (x : String) (xs ys : List String)
    → contains x (set_minus xs ys) ≡ (not (contains x ys) && contains x xs)
unfolding set_minus
contains-set_minus x xs ys = ground (
  arith,
  contains-dedupe x (keep (λ z. not (contains z ys)) xs),
  contains-keep (λ z. not (contains z ys)) x xs,
)
