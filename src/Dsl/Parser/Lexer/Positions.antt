-- ===== src/Dsl/Parser/Lexer/Positions.antt =====
-- rescan/dsl/parser.py: the tokenizer ends on every text, and its positions lie in the text.
use Prim.Native.String.{◌++◌ as ◌^◌}
use text.Mathlib.TextLemmas.{nil-append, cons-append}
use rescan.Prelude.{
  ◌≡◌, sym, ap, subst, ℕ, zero, suc, ◌+◌, ◌<◌, ◌≤◌, String, Option, none, some, List, arith, All,
}
use rescan.Prelude.Float.{FloatOps}
use rescan.Dsl.Parser.Token.{Token, token, Position, Parsed, ok, failed, out_of_fuel, then_do}
use rescan.Dsl.Parser.Lexer.{
  Lexeme, lexeme, lex, tokenize, Place, position, pass, pass_blank, add_token, char_count, newlines,
  after_newline, start, turn,
}
use rescan.Dsl.Parser.Lexer.Splits.{Splits, lexeme-Splits}

char_count-append : (s t : String) → char_count (s ^ t) ≡ char_count s + char_count t
char_count-append String.[] t = rw nil-append (omega arith)
char_count-append (String.◌∷◌ c s) t = rw cons-append (omega (arith, char_count-append s t))

newlines-append : (s t : String) → newlines (s ^ t) ≡ newlines s + newlines t
newlines-append String.[] t = rw nil-append (omega arith)
newlines-append (String.◌∷◌ c s) t = rw cons-append (ground (arith, newlines-append s t))

after_newline-le : (s : String) → after_newline s ≤ char_count s
after_newline-le String.[] = omega arith
after_newline-le (String.◌∷◌ c s) = ground (arith, after_newline-le s)

-- a position in a text with that many characters and newlines
abbrev pub Within : ℕ → ℕ → Position → Type 0
Within size lines (line, col) = (1 ≤ line) × (line ≤ lines + 1) × (1 ≤ col) × (col ≤ size + 1)

abbrev pub place_of : {F : Type 0} → Token F → Position
place_of (token s p) = p

-- The tokenizer ends, with tokens and an end, or an error, whose positions are in the text.
abbrev pub Located : {F : Type 0} → ℕ → ℕ → Parsed (List (Token F) × Position) → Type 0
Located size lines (ok (ts, end)) =
    All (λ t. Within size lines (place_of t)) ts × Within size lines end
Located size lines (failed e) = Within size lines e.at
Located size lines out_of_fuel = ⊥

-- where the tokenizer stands, before what is left
record At (size lines : ℕ) (p : Place) (text : String) : Type 0 where
  started : p.line_start ≤ p.pos
  inside : p.pos + char_count text ≤ size
  counted : 1 ≤ p.line
  below : p.line + newlines text ≤ lines + 1

pass_on :
    (n : ℕ) (text raw rest : String)
    → raw ^ rest ≡ text
    → 0 < char_count raw
    → char_count text < suc n
    → char_count rest < n
pass_on n text raw rest e h k = omega (arith, char_count-append raw rest, ap char_count e)

module _ (size lines : ℕ) where
  position-Within :
      (p : Place) (text : String) → At size lines p text → Within size lines (position p)
  position-Within p text h = omega arith

  pass-At :
      (p : Place) (raw rest : String)
      → At size lines p (raw ^ rest)
      → At size lines (pass raw p) rest
  pass-At p raw rest h = omega (arith, char_count-append raw rest, newlines-append raw rest)

  pass_blank-At :
      (p : Place) (raw rest : String)
      → At size lines p (raw ^ rest)
      → At size lines (pass_blank raw p) rest
  pass_blank-At p raw rest h =
      ground (arith, char_count-append raw rest, newlines-append raw rest, after_newline-le raw)

  module _ (F : Type 0) where
    add_token-Located :
        ⦃fl : FloatOps F⦄ (t : Token F) (r : Parsed (List (Token F) × Position))
        → Within size lines (place_of t)
        → Located size lines r
        → Located size lines (then_do r (add_token t))
    add_token-Located t (ok (ts, end)) h (k, e) = ((h, k), e)
    add_token-Located t (failed e) h k = k
    add_token-Located t out_of_fuel h k = k

    -- from a turn of the loop to the next
    abbrev Next : (Place → String → Parsed (List (Token F) × Position)) → ℕ → Type 0
    Next more n =
        (p : Place) (text : String)
        → At size lines p text
        → char_count text < n
        → Located size lines (more p text)

    turn-Located :
        ⦃fl : FloatOps F⦄ (o : Option (Lexeme F)) (n : ℕ) (p : Place) (text : String)
        (more : Place → String → Parsed (List (Token F) × Position))
        → Splits text o
        → At size lines p text
        → char_count text < suc n
        → Next more n
        → Located size lines (turn o p more)
    turn-Located none n p text more h at short next = position-Within p text at
    turn-Located (some (Lexeme.blank raw rest)) n p text more (e, pos) at short next =
        next (pass_blank raw p) rest (pass_blank-At p raw rest (subst (At size lines p) (sym e) at))
          (pass_on n text raw rest e pos short)
    turn-Located (some (Lexeme.comment raw rest)) n p text more (e, pos) at short next =
        next (pass raw p) rest (pass-At p raw rest (subst (At size lines p) (sym e) at))
          (pass_on n text raw rest e pos short)
    turn-Located (some (Lexeme.symbol token_symbol raw rest)) n p text more (e, pos) at short next =
        add_token-Located _ (more (pass raw p) rest) (position-Within p text at) (
          next (pass raw p) rest (pass-At p raw rest (subst (At size lines p) (sym e) at))
            (pass_on n text raw rest e pos short))

module _ (F : Type 0) ⦃fl : FloatOps F⦄ (size lines : ℕ) where
  lex-Located :
      (n : ℕ) (p : Place) (text : String)
      → At size lines p text
      → char_count text < n
      → Located {F = F} size lines (lex n p text)
  unfolding lex
  lex-Located zero p text at short = absurd (omega arith)
  lex-Located (suc n) p String.[] at short = (tt, position-Within size lines p "" at)
  lex-Located (suc n) p (String.◌∷◌ c s) at short =
      turn-Located size lines F (lexeme c s) n p (String.◌∷◌ c s) (lex n) (lexeme-Splits F c s) at
        short (lex-Located n)

-- The tokenizer ends on every text, in tokens and an end or in an error, and every position that it
-- gives lies in the text: the line is at least one and at most one more than the newlines, the
-- column at least one and at most one more than the characters.
pub tokenize-Located :
    (F : Type 0) ⦃fl : FloatOps F⦄ (text : String)
    → Located {F = F} (char_count text) (newlines text) (tokenize text)
unfolding tokenize
tokenize-Located F text =
    lex-Located F (char_count text) (newlines text) (suc (char_count text)) start text (omega arith)
      (omega arith)
