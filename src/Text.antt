-- ===== src/Text.antt =====
-- Python's text methods, on the native strings. Letters are lowered in the ASCII range alone.
pub mod Keys
use Prim.Native.Char.{Char, code}
use Prim.Native.String.{String}
use Prim.Native.String
use aaai.Prelude.{
  ◌-◌, ℕ, ◌+◌, Bool, true, false, not, ◌&&◌, ◌||◌, Option, none, some, List, [], ◌∷◌, ◌==◌, leb,
  nat_eq, if◌then◌else◌, map,
}

-- The code points of a text.
unfoldable pub codes : String → List ℕ
codes String.[] = []
codes (String.◌∷◌ c s) = code c ∷ codes s

lower_code : ℕ → ℕ
lower_code c = if leb b'A' c && leb c b'Z' then c + 32 else c

-- `s.lower()`, as code points
unfoldable pub lower : String → List ℕ
unfolding lower_code codes
lower s = map lower_code (codes s)

unfoldable pub same_codes : List ℕ → List ℕ → Bool
same_codes [] [] = true
same_codes (x ∷ xs) (y ∷ ys) = nat_eq x y && same_codes xs ys
same_codes _ _ = false

begins : List ℕ → List ℕ → Bool
begins [] ys = true
begins (x ∷ xs) [] = false
begins (x ∷ xs) (y ∷ ys) = nat_eq x y && begins xs ys

-- `pat in s`
unfoldable pub occurs : List ℕ → List ℕ → Bool
unfolding begins
occurs pat [] = begins pat []
occurs pat (c ∷ s) = begins pat (c ∷ s) || occurs pat s

-- `any(w in s for w in words)`
unfoldable pub any_occurs : List String → List ℕ → Bool
any_occurs [] s = false
any_occurs (w ∷ words) s = occurs (codes w) s || any_occurs words s

-- `c in chars`
is_one_of : List ℕ → ℕ → Bool
is_one_of [] c = false
is_one_of (x ∷ xs) c = nat_eq x c || is_one_of xs c

abbrev whitespace : List ℕ
whitespace = 32 ∷ 9 ∷ 10 ∷ 11 ∷ 12 ∷ 13 ∷ 28 ∷ 29 ∷ 30 ∷ 31 ∷ []

lstrip : List ℕ → String → String
lstrip chars String.[] = String.[]
lstrip chars (String.◌∷◌ c s) =
    let rest = lstrip chars s in if is_one_of chars (code c) then rest else String.◌∷◌ c s

rstrip : List ℕ → String → String
rstrip chars String.[] = String.[]
rstrip chars (String.◌∷◌ c s) =
    let rest = rstrip chars s in
    if rest == "" && is_one_of chars (code c) then "" else String.◌∷◌ c rest

-- `s.strip(chars)` and `s.strip()`
unfoldable pub strip_chars : List ℕ → String → String
unfolding lstrip rstrip is_one_of
strip_chars chars s = rstrip chars (lstrip chars s)

unfoldable pub strip : String → String
unfolding strip_chars
strip = strip_chars whitespace

-- The text behind the first `n` characters.
skip : ℕ → String → String
skip ℕ.zero s = s
skip (ℕ.suc n) String.[] = String.[]
skip (ℕ.suc n) (String.◌∷◌ c s) = skip n s

count : List ℕ → ℕ
count [] = 0
count (x ∷ xs) = ℕ.suc (count xs)

cons_first : Char → Option (String × String) → Option (String × String)
cons_first c none = none
cons_first c (some (a, b)) = some (String.◌∷◌ c a, b)

-- `s.split(pat, 1)`, with `none` where `pat` does not occur
unfoldable pub split_once : List ℕ → String → Option (String × String)
unfolding begins skip cons_first count codes
split_once pat String.[] = none
split_once pat (String.◌∷◌ c s) =
    let rest = split_once pat s in
    if begins pat (code c ∷ codes s)
    then some ("", skip (count pat) (String.◌∷◌ c s))
    else cons_first c rest

-- `s.split(",")`
push_char : Char → List String → List String
push_char c [] = String.◌∷◌ c String.[] ∷ []
push_char c (w ∷ words) = String.◌∷◌ c w ∷ words

unfoldable pub split_commas : String → List String
unfolding push_char
split_commas String.[] = "" ∷ []
split_commas (String.◌∷◌ c s) =
    let rest = split_commas s in if nat_eq (code c) 44 then "" ∷ rest else push_char c rest

-- `"|" in s`
unfoldable pub has_bar : String → Bool
has_bar String.[] = false
has_bar (String.◌∷◌ c s) = nat_eq (code c) 124 || has_bar s

-- `s.split("|")[0]`
unfoldable pub before_bar : String → String
before_bar String.[] = String.[]
before_bar (String.◌∷◌ c s) =
    let rest = before_bar s in if nat_eq (code c) 124 then "" else String.◌∷◌ c rest

-- `s.rsplit("|", 1)[-1]`
unfoldable pub after_last_bar : String → String
unfolding has_bar
after_last_bar String.[] = String.[]
after_last_bar (String.◌∷◌ c s) =
    let rest = after_last_bar s in
    if has_bar s then rest else if nat_eq (code c) 124 then s else String.◌∷◌ c s

-- `s + t`
abbrev pub text_append : String → String → String
text_append s t = String.◌++◌ s t

-- `s.rstrip(".")`
unfoldable pub rstrip_dots : String → String
unfolding rstrip is_one_of
rstrip_dots = rstrip (46 ∷ [])

-- `s.replace("\n", " ")`
unfoldable pub lines_joined : String → String
lines_joined String.[] = String.[]
lines_joined (String.◌∷◌ c s) =
    let rest = lines_joined s in
    if nat_eq (code c) 10 then text_append " " rest else String.◌∷◌ c rest

-- `s.split(pat)`; the number counts the characters of a found `pat` that are still to be passed over.
unfoldable pub split_from : ℕ → List ℕ → String → List String
unfolding begins count codes push_char
split_from n pat String.[] = "" ∷ []
split_from (ℕ.suc n) pat (String.◌∷◌ c s) = split_from n pat s
split_from ℕ.zero pat (String.◌∷◌ c s) =
    let found = split_from (count pat - 1) pat s in
    let rest = split_from 0 pat s in
    if begins pat (code c ∷ codes s) then "" ∷ found else push_char c rest

-- `len(s)`
unfoldable pub text_length : String → ℕ
unfolding count codes
text_length s = count (codes s)

-- `s[:n]`
unfoldable pub text_take : ℕ → String → String
text_take ℕ.zero s = String.[]
text_take (ℕ.suc n) String.[] = String.[]
text_take (ℕ.suc n) (String.◌∷◌ c s) = String.◌∷◌ c (text_take n s)

-- `len(s.split())`; the flag tells whether the scan is inside a word.
unfoldable pub words_from : Bool → String → ℕ
unfolding is_one_of
words_from inside String.[] = 0
words_from inside (String.◌∷◌ c s) =
    let out = words_from false s in
    let rest = words_from true s in
    if is_one_of whitespace (code c) then out else if inside then rest else rest + 1

-- `"|".join(fields)`
unfoldable pub join_bars : List String → String
join_bars [] = ""
join_bars (x ∷ []) = x
join_bars (x ∷ y ∷ rest) = text_append x (text_append "|" (join_bars (y ∷ rest)))
