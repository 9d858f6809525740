-- ===== src/Pipeline/Anonymize/Signs.antt =====
-- rescan/pipeline/anonymize.py: a token that begins with a sign, such as a phone number `+61…`. The
-- pattern wants `\b` before the sign, and there is one only where a word character comes before it.
use Prim.Native.Char.{Char, code}
use rescan.Prelude.{
  ◌≡◌, ◌⊎◌, refl, sym, ap, ℕ, zero, suc, ◌<◌, String, Bool, true, false, ◌&&◌, ◌||◌, ◌==◌, Option,
  none, some, List, [], ◌∷◌, filter, leb, ◌-◌, Bool-cases, inl, inr, arith, if_elim,
}
use rescan.Prelude.Text.{text_length, lower_char, char_of, str_eq, eq_iff, member}
use rescan.Schemas.{StructuredResume, AnonymizedProfile}
use rescan.Dsl.Parser.Lexer.{is_word}
use rescan.Pipeline.Anonymize.Scrub.{
  word_before, at_boundary, token_follows, matches_at, occurs, replace_from, is_long, leaks_in,
  identity_tokens,
}
use rescan.Pipeline.Anonymize.Parts.{AnonymizeEnv}
use rescan.Pipeline.Anonymize.Pass.{leak_check}

and-false : (a : Bool) {b : Bool} → b ≡ false → a && b ≡ false
and-false false h = refl
and-false true h = h

-- each character is one of a word
words : String → Bool
words String.[] = true
words (String.◌∷◌ c s) = is_word c && words s

char_of-word :
    (s : String) (n : ℕ) (d : Char)
    → words s ≡ true
    → n < text_length s
    → is_word (char_of s n d) ≡ true
unfolding char_of words text_length
char_of-word String.[] n d h k = absurd (omega (arith, k))
char_of-word (String.◌∷◌ c s) zero d h k = ground arith
char_of-word (String.◌∷◌ c s) (suc n) d h k = char_of-word s n d (ground arith) (omega (arith, k))

lower_char-sign : (c : Char) → is_word c ≡ false → lower_char c ≡ c
unfolding lower_char
lower_char-sign c sign = ground arith

-- A capital letter is a letter in lower case too.
lower_char-word : (d : Char) → (lower_char d ≡ d) ⊎ (is_word (lower_char d) ≡ true)
unfolding lower_char
lower_char-word d =
    if_elim (λ l. (l ≡ d) ⊎ (is_word l ≡ true)) (leb b'A' (code d) && leb (code d) b'Z')
      (λ capital. inr (
        char_of-word "abcdefghijklmnopqrstuvwxyz" (code d - b'A') d (unfold words in refl)
          (unfold text_length in ground arith)))
      (λ other. inl refl)

-- What the pattern takes for a sign is the sign itself.
same_sign :
    (c d : Char)
    → is_word c ≡ false
    → (code (lower_char c) == code (lower_char d)) ≡ true
    → code d ≡ code c
same_sign c d sign h = elim (lower_char-word d) [
  | inl same ↦ ground (arith, rw (lower_char-sign c sign, same) at h)
  | inr letter ↦ absurd (ground (arith, letter, rw (lower_char-sign c sign) at h))
]

-- Whether the sign stands somewhere directly after a word character.
abbrev pub after_word : Char → Option Char → String → Bool
after_word c before String.[] = false
after_word c before (String.◌∷◌ d s) =
    (word_before before && code d == code c) || after_word c (some d) s

no_match :
    (c : Char) (ts : String) (before : Option Char) (d : Char) (s : String)
    → is_word c ≡ false
    → (word_before before && code d == code c) ≡ false
    → matches_at (String.◌∷◌ c ts) before (String.◌∷◌ d s) ≡ false
unfolding matches_at token_follows
no_match c ts before d s sign apart =
    elim (Bool-cases (code (lower_char c) == code (lower_char d))) [
      | inl same ↦ ground (arith, same_sign c d sign same)
      | inr other ↦ rw other (and-false (at_boundary before (String.◌∷◌ d s)) refl)
    ]

replace_from-sign :
    (c : Char) (ts : String) (before : Option Char) (s : String)
    → is_word c ≡ false
    → after_word c before s ≡ false
    → replace_from (String.◌∷◌ c ts) 0 before s ≡ s
unfolding replace_from
replace_from-sign c ts before String.[] sign apart = refl
replace_from-sign c ts before (String.◌∷◌ d s) sign apart =
    rw (no_match c ts before d s sign (ground arith), replace_from)
      (ap (λ t. String.◌∷◌ d t) (replace_from-sign c ts (some d) s sign (ground arith)))

occurs-sign :
    (c : Char) (ts : String) (before : Option Char) (s : String)
    → is_word c ≡ false
    → after_word c before s ≡ false
    → occurs (String.◌∷◌ c ts) before s ≡ false
unfolding occurs
occurs-sign c ts before String.[] sign apart = refl
occurs-sign c ts before (String.◌∷◌ d s) sign apart =
    rw (no_match c ts before d s sign (ground arith))
      (occurs-sign c ts (some d) s sign (ground arith))

member-filter :
    (keep : String → Bool) (x : String) (xs : List String)
    → keep x ≡ false
    → member x (filter keep xs) ≡ false
member-filter keep x [] h = refl
member-filter keep x (y ∷ ys) h = elim (Bool-cases (str_eq x y)) [
  | inl same ↦ rw (ap keep (sym ((eq_iff x y).0 same)), h) (member-filter keep x ys h)
  | inr other ↦ ground (arith, other, member-filter keep x ys h)
]

module _ {W F : Type 0} (e : AnonymizeEnv W F) where
  -- If a token of the identity begins with a character of no word, and nowhere in a free text and
  -- in the serialised profile that character stands directly after one of a word, then the
  -- substitution for the token leaves the free text as it is, and the leak check does not report
  -- the token.
  pub sign_first :
      (c : Char) (ts text : String) (r : StructuredResume F) (p : AnonymizedProfile F)
      → is_word c ≡ false
      → after_word c none text ≡ false
      → after_word c none (e.serialise p) ≡ false
      → (replace_from (String.◌∷◌ c ts) 0 none text ≡ text)
        × (member (String.◌∷◌ c ts) (leak_check e r p) ≡ false)
  unfolding leak_check leaks_in
  sign_first c ts text r p sign apart serialised = (
    replace_from-sign c ts none text sign apart,
    member-filter (λ t. is_long t && occurs t none (e.serialise p)) (String.◌∷◌ c ts)
        (identity_tokens r)
        (and-false (is_long (String.◌∷◌ c ts))
          (occurs-sign c ts none (e.serialise p) sign serialised)),
  )
