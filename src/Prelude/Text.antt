-- ===== src/Prelude/Text.antt =====
-- The methods of `str` that the program uses. Letters are those of ASCII: other characters have
-- no case here, and white space is that of ASCII.
use Prim.Native.Nat.{ℕ, zero, suc, ◌-◌, ◌/◌, ◌%◌}
use Prim.Native.Char.{Char, code}
use Prim.Native.String.{String, ◌++◌ as ◌^◌}
use mathlib.Core.Bool.{Bool, true, false, ◌&&◌, ◌||◌}
use mathlib.Core.Option.{Option, none, some}
use mathlib.Core.List.{List, [], ◌∷◌}
use rescan.Prelude.Tests.{leb, ◌==◌, if◌then◌else◌}
pub use text.Mathlib.Text.{◌==◌ as str_eq}
pub use text.Mathlib.TextEquality.{eq_iff}

-- The character of `s` at a position, or `c` past its end.
unfoldable pub char_of : String → ℕ → Char → Char
char_of String.[] n c = c
char_of (String.◌∷◌ d s) zero c = d
char_of (String.◌∷◌ d s) (suc n) c = char_of s n c

unfoldable pub lower_char : Char → Char
unfolding char_of
lower_char c =
    if leb b'A' (code c) && leb (code c) b'Z'
    then char_of "abcdefghijklmnopqrstuvwxyz" (code c - b'A') c
    else c

unfoldable pub upper_char : Char → Char
unfolding char_of
upper_char c =
    if leb b'a' (code c) && leb (code c) b'z'
    then char_of "ABCDEFGHIJKLMNOPQRSTUVWXYZ" (code c - b'a') c
    else c

abbrev pub map_chars : (Char → Char) → String → String
map_chars f String.[] = ""
map_chars f (String.◌∷◌ c s) = String.◌∷◌ (f c) (map_chars f s)

-- s.lower(), s.upper()
unfoldable pub lower : String → String
unfolding lower_char
lower s = map_chars lower_char s

unfoldable pub upper : String → String
unfolding upper_char
upper s = map_chars upper_char s

-- s.capitalize()
unfoldable pub capitalize : String → String
unfolding lower upper_char
capitalize String.[] = ""
capitalize (String.◌∷◌ c s) = String.◌∷◌ (upper_char c) (lower s)

-- s[0].upper() + s[1:]
unfoldable pub upper_first : String → String
unfolding upper_char
upper_first String.[] = ""
upper_first (String.◌∷◌ c s) = String.◌∷◌ (upper_char c) s

abbrev pub is_space : Char → Bool
is_space c = code c == 32 || leb 9 (code c) && leb (code c) 13

unfoldable pub lstrip : String → String
lstrip String.[] = ""
lstrip (String.◌∷◌ c s) = let rest = lstrip s in if is_space c then rest else String.◌∷◌ c s

abbrev pub is_empty : String → Bool
is_empty String.[] = true
is_empty (String.◌∷◌ c s) = false

unfoldable pub rstrip : String → String
rstrip String.[] = ""
rstrip (String.◌∷◌ c s) =
    let rest = rstrip s in if is_space c && is_empty rest then "" else String.◌∷◌ c rest

-- s.strip()
unfoldable pub strip : String → String
unfolding lstrip rstrip
strip s = rstrip (lstrip s)

unfoldable pub starts_with : String → String → Bool
starts_with s String.[] = true
starts_with String.[] (String.◌∷◌ d t) = false
starts_with (String.◌∷◌ c s) (String.◌∷◌ d t) = code c == code d && starts_with s t

-- needle in s
unfoldable pub contains : String → String → Bool
unfolding starts_with
contains needle String.[] = is_empty needle
contains needle (String.◌∷◌ c s) = starts_with (String.◌∷◌ c s) needle || contains needle s

-- An f-string is the list of its pieces.
abbrev pub concat : List String → String
concat [] = ""
concat (s ∷ ss) = s ^ concat ss

-- sep.join(items)
abbrev pub join : String → List String → String
join sep [] = ""
join sep (s ∷ []) = s
join sep (s ∷ t ∷ ts) = s ^ (sep ^ join sep (t ∷ ts))

-- The characters of a text, each as a text.
abbrev pub chars : String → List String
chars String.[] = []
chars (String.◌∷◌ c s) = String.◌∷◌ c "" ∷ chars s

-- x in values
abbrev pub member : String → List String → Bool
member s [] = false
member s (t ∷ ts) = str_eq s t || member s ts

-- d.get(key) on a literal dictionary
abbrev pub lookup {ℓ} : {V : Type ℓ} → String → List (String × V) → Option V
lookup k [] = none
lookup k ((j, v) ∷ rest) = if str_eq j k then some v else lookup k rest

abbrev pub digit : ℕ → String
digit d = String.◌∷◌ (char_of "0123456789" d "?") ""

unfoldable pub show_digits : ℕ → ℕ → String → String
show_digits zero n acc = acc
show_digits (suc fuel) n acc =
    let rest = show_digits fuel (n / 10) (digit (n % 10) ^ acc) in
    if leb n 9 then digit n ^ acc else rest

-- str(n); the number's digits are fewer than `n + 1`
unfoldable pub show_nat : ℕ → String
unfolding show_digits char_of
show_nat n = show_digits (suc n) n ""

-- chr(97 + n), for `n` below 30
unfoldable pub letter : ℕ → String
unfolding char_of
letter n = String.◌∷◌ (char_of "abcdefghijklmnopqrstuvwxyz{|}~" n "?") ""

-- len(text)
unfoldable pub text_length : String → ℕ
text_length String.[] = 0
text_length (String.◌∷◌ c s) = suc (text_length s)
