-- ===== src/Dsl/Parser/Lexer/Splits.antt =====
-- rescan/dsl/parser.py: a match of the tokenizer takes at least one character, and its text and
-- what is left are the text that it was tried on.
use Prim.Native.Char.{Char, code}
use Prim.Native.String.{◌++◌ as ◌^◌}
use text.Mathlib.TextLemmas.{nil-append, cons-append, append_assoc}
use mathlib.Core.Option
use rescan.Prelude.{
  ◌≡◌, sym, ap, ◌∙◌, ◌<◌, String, Bool, true, false, Option, none, some, ◌==◌, if◌then◌else◌, ◌&&◌,
  arith, if_elim,
}
use rescan.Prelude.Float.{FloatOps}
use rescan.Dsl.Ast.{Comparator}
use rescan.Dsl.Parser.Lexer.{
  span, Split, before, string_end, fraction, number_end, Lexeme, lexeme, punctuation, char_count,
  is_digit, not_newline, is_blank, is_word, is_word_start, with_equals, string_of, minus,
}

-- the two parts make up the text
abbrev pub Parts : String → Split → Type 0
Parts text (raw, rest) = raw ^ rest ≡ text

before-Parts : (c : Char) (s : String) (m : Split) → Parts s m → Parts (String.◌∷◌ c s) (before c m)
before-Parts c s (raw, rest) h = cons-append c raw rest ∙ ap (String.◌∷◌ c) h

span-Parts : (p : Char → Bool) (s : String) → Parts s (span p s)
unfolding span
span-Parts p String.[] = nil-append ""
span-Parts p (String.◌∷◌ c s) =
    if_elim (Parts (String.◌∷◌ c s)) (p c) (λ _. before-Parts c s (span p s) (span-Parts p s))
      (λ _. nil-append _)

abbrev PartsIf : String → Option Split → Type 0
PartsIf text none = Unit
PartsIf text (some m) = Parts text m

before-PartsIf :
    (c : Char) (s : String) (o : Option Split)
    → PartsIf s o
    → PartsIf (String.◌∷◌ c s) (Option.map (before c) o)
before-PartsIf c s none h = tt
before-PartsIf c s (some m) h = before-Parts c s m h

before_two-PartsIf :
    (c d : Char) (s : String) (o : Option Split)
    → PartsIf s o
    → PartsIf (String.◌∷◌ c (String.◌∷◌ d s)) (Option.map (λ m. before c (before d m)) o)
before_two-PartsIf c d s none h = tt
before_two-PartsIf c d s (some m) h =
    before-Parts c (String.◌∷◌ d s) (before d m) (before-Parts d s m h)

single-append : (c : Char) (s : String) → String.◌∷◌ c "" ^ s ≡ String.◌∷◌ c s
single-append c s = cons-append c "" s ∙ ap (String.◌∷◌ c) (nil-append s)

string_end-PartsIf : (s : String) → PartsIf s (string_end s)
unfolding string_end
string_end-PartsIf String.[] = tt
string_end-PartsIf (String.◌∷◌ c String.[]) =
    if_elim (PartsIf _) (code c == b'"') (λ _. single-append c "") (λ _. tt)
string_end-PartsIf (String.◌∷◌ c (String.◌∷◌ d s)) =
    if_elim (PartsIf _) (code c == b'"') (λ _. single-append c _)
      (λ _.
        elim (code c == b'\\')
          as (λ b. PartsIf (String.◌∷◌ c (String.◌∷◌ d s)) (elim b [
            | true ↦
                if not_newline d
                then Option.map (λ m. before c (before d m)) (string_end s)
                else none
            | false ↦ Option.map (before c) (string_end (String.◌∷◌ d s))
          ])) [
            | true ↦
                if_elim (PartsIf _) (not_newline d)
                  (λ _. before_two-PartsIf c d s (string_end s) (string_end-PartsIf s)) (λ _. tt)
            | false ↦ before-PartsIf c _ _ (string_end-PartsIf (String.◌∷◌ d s))
          ])

fraction-Parts : (s : String) → Parts s (fraction s)
unfolding fraction
fraction-Parts String.[] = nil-append ""
fraction-Parts (String.◌∷◌ c String.[]) = nil-append _
fraction-Parts (String.◌∷◌ c (String.◌∷◌ d s)) =
    if_elim (Parts _) (code c == b'.' && is_digit d)
      (λ _.
        before-Parts c _ (span is_digit (String.◌∷◌ d s)) (span-Parts is_digit (String.◌∷◌ d s)))
      (λ _. nil-append _)

number_end-Parts : (s : String) → Parts s (number_end s)
unfolding number_end
number_end-Parts s =
    append_assoc (span is_digit s).0 (fraction (span is_digit s).1).0 _
    ∙ ap (λ t. (span is_digit s).0 ^ t) (fraction-Parts (span is_digit s).1)
    ∙ span-Parts is_digit s

number_end_nonempty :
    (c : Char) (s : String) → is_digit c ≡ true → 0 < char_count (number_end (String.◌∷◌ c s)).0
unfolding number_end span
number_end_nonempty c s h = rw h (rw cons-append (omega arith))

module _ {F : Type 0} where
  abbrev pub raw_of : Lexeme F → String
  raw_of (Lexeme.blank raw rest) = raw
  raw_of (Lexeme.comment raw rest) = raw
  raw_of (Lexeme.symbol sym raw rest) = raw

  abbrev pub rest_of : Lexeme F → String
  rest_of (Lexeme.blank raw rest) = rest
  rest_of (Lexeme.comment raw rest) = rest
  rest_of (Lexeme.symbol sym raw rest) = rest

  abbrev pub Splits : String → Option (Lexeme F) → Type 0
  Splits text none = Unit
  Splits text (some l) = (raw_of l ^ rest_of l ≡ text) × (0 < char_count (raw_of l))

module _ (F : Type 0) where
  with_equals-Splits :
      (two : Comparator) (one : Option Comparator) (c : Char) (s : String)
      → Splits (String.◌∷◌ c s) (with_equals {F = F} two one c s)
  with_equals-Splits two none c String.[] = tt
  with_equals-Splits two (some o) c String.[] = (single-append c "", omega arith)
  with_equals-Splits two none c (String.◌∷◌ d s) =
      if_elim (Splits _) (code d == b'=')
        (λ _. (before-Parts c _ _ (single-append d s), omega arith)) (λ _. tt)
  with_equals-Splits two (some o) c (String.◌∷◌ d s) =
      if_elim (Splits _) (code d == b'=')
        (λ _. (before-Parts c _ _ (single-append d s), omega arith))
        (λ _. (single-append c _, omega arith))

  punctuation-Splits :
      ⦃fl : FloatOps F⦄ (c : Char) (s : String) → Splits (String.◌∷◌ c s) (punctuation {F = F} c s)
  unfolding punctuation
  punctuation-Splits c s =
      let P = Splits {F = F} (String.◌∷◌ c s) in
      if_elim P (code c == b'>') (λ _. with_equals-Splits Comparator.ge (some Comparator.gt) c s)
        λ _.
          if_elim P (code c == b'<')
            (λ _. with_equals-Splits Comparator.le (some Comparator.lt) c s)
            λ _.
              if_elim P (code c == b'!') (λ _. with_equals-Splits Comparator.ne none c s)
                λ _.
                  if_elim P (code c == b'=') (λ _. (single-append c s, omega arith))
                    λ _.
                      if_elim P (code c == b'(') (λ _. (single-append c s, omega arith))
                        λ _.
                          if_elim P (code c == b')') (λ _. (single-append c s, omega arith))
                            λ _.
                              if_elim P (code c == b',') (λ _. (single-append c s, omega arith))
                                λ _.
                                  if_elim P (code c == b';') (λ _. (single-append c s, omega arith))
                                    λ _.
                                      if_elim P (code c == b'.')
                                        (λ _. (single-append c s, omega arith)) (λ _. tt)

  minus-Splits :
      ⦃fl : FloatOps F⦄ (c : Char) (s : String) → Splits (String.◌∷◌ c s) (minus {F = F} c s)
  minus-Splits c String.[] = tt
  minus-Splits c (String.◌∷◌ d s) =
      if_elim (Splits {F = F} _) (code d == b'-')
        (λ _. (
          before-Parts c _ (span not_newline (String.◌∷◌ d s)) (span-Parts not_newline _),
          omega arith,
        ))
        λ _.
          if_elim (Splits {F = F} _) (is_digit d)
            (λ _. (
              before-Parts c _ (number_end (String.◌∷◌ d s)) (number_end-Parts (String.◌∷◌ d s)),
              omega arith,
            ))
            (λ _. tt)

  string-Splits :
      (c : Char) (s : String) (o : Option Split)
      → PartsIf s o
      → Splits (String.◌∷◌ c s) (Option.map (string_of {F = F} c) o)
  string-Splits c s none h = tt
  string-Splits c s (some m) h = (before-Parts c s m h, omega arith)

  pub lexeme-Splits :
      ⦃fl : FloatOps F⦄ (c : Char) (s : String) → Splits (String.◌∷◌ c s) (lexeme {F = F} c s)
  unfolding lexeme
  lexeme-Splits c s =
      let P = Splits {F = F} (String.◌∷◌ c s) in
      if_elim P (is_blank c)
        (λ _. (before-Parts c s (span is_blank s) (span-Parts is_blank s), omega arith))
        λ _.
          if_elim P (code c == b'-') (λ _. minus-Splits c s)
            λ _.
              if_elim P (code c == b'"')
                (λ _. string-Splits c s (string_end s) (string_end-PartsIf s))
                λ _.
                  if_elim P (is_digit c)
                    (λ h. (number_end-Parts (String.◌∷◌ c s), number_end_nonempty c s h))
                    λ _.
                      if_elim P (is_word_start c)
                        (λ _.
                          (before-Parts c s (span is_word s) (span-Parts is_word s), omega arith))
                        (λ _. punctuation-Splits c s)
