-- ===== src/Runner/RuleIds.antt =====
-- rescan/pipeline/runner.py: the loop of `add_rule` that looks for a free id ends with one.
use Prim.Native.Char.{Char, code}
use Prim.Native.String.{◌++◌ as ◌^◌}
use text.Mathlib.TextLemmas.{cons-append, nil-append, append_cancel_left}
use rescan.Prelude.{
  ◌≡◌, refl, sym, ap, ◌∙◌, ℕ, zero, suc, ◌+◌, ◌*◌, ◌-◌, ◌/◌, ◌%◌, ◌≤◌, ◌<◌, String, true, false,
  List, [], ◌∷◌, if◌then◌else◌, leb, length, Bool-cases, inl, inr, arith, if_elim,
}
use rescan.Prelude.Text.{str_eq, eq_iff, member, show_nat, show_digits, digit, char_of}
use rescan.Rules.Classifier.Plan.{rule_id}
use rescan.Runner.Rules.{free_index, next_id}

-- the number that the digits of a text give, after those read
read_digits : ℕ → String → ℕ
read_digits n String.[] = n
read_digits n (String.◌∷◌ c s) = read_digits (10 * n + (code c - 48)) s

digit_char : ℕ → Char
digit_char d = char_of "0123456789" d "?"

digit_code : (d : ℕ) → d < 10 → code (digit_char d) ≡ 48 + d
unfolding digit_char char_of
digit_code zero h = refl
digit_code (suc zero) h = refl
digit_code (suc (suc zero)) h = refl
digit_code (suc (suc (suc zero))) h = refl
digit_code (suc (suc (suc (suc zero)))) h = refl
digit_code (suc (suc (suc (suc (suc zero))))) h = refl
digit_code (suc (suc (suc (suc (suc (suc zero)))))) h = refl
digit_code (suc (suc (suc (suc (suc (suc (suc zero))))))) h = refl
digit_code (suc (suc (suc (suc (suc (suc (suc (suc zero)))))))) h = refl
digit_code (suc (suc (suc (suc (suc (suc (suc (suc (suc zero))))))))) h = refl
digit_code (suc (suc (suc (suc (suc (suc (suc (suc (suc (suc n)))))))))) h = absurd (omega arith)

read_digit :
    (n d : ℕ) (acc : String) → d < 10 → read_digits n (digit d ^ acc) ≡ read_digits (10 * n + d) acc
unfolding read_digits digit_char
read_digit n d acc h =
    rw (cons-append, nil-append) (ap (λ m. read_digits m acc) (omega (arith, digit_code d h)))

read-show_digits :
    (fuel n : ℕ) (acc : String)
    → n < fuel
    → read_digits 0 (show_digits fuel n acc) ≡ read_digits n acc
unfolding show_digits
read-show_digits zero n acc h = absurd (omega arith)
read-show_digits (suc fuel) n acc h =
    if_elim (λ t. read_digits 0 t ≡ read_digits n acc) (leb n 9)
      (λ small. read_digit 0 n acc (ground arith) ∙ ap (λ m. read_digits m acc) (omega arith))
      (λ large.
        read-show_digits fuel (n / 10) (digit (n % 10) ^ acc) (ground arith)
        ∙ read_digit (n / 10) (n % 10) acc (omega arith)
        ∙ ap (λ m. read_digits m acc) (omega arith))

read-show_nat : (n : ℕ) → read_digits 0 (show_nat n) ≡ n
unfolding show_nat read_digits
read-show_nat n = read-show_digits (suc n) n "" (omega arith)

-- Two numbers have two ids.
pub rule_id_inj : (m n : ℕ) → rule_id m ≡ rule_id n → m ≡ n
rule_id_inj m n h =
    sym (read-show_nat m)
    ∙ ap (read_digits 0) (append_cancel_left "rule_" (show_nat m) (show_nat n) h)
    ∙ read-show_nat n

other_id : (j k : ℕ) → k < j → str_eq (rule_id j) (rule_id k) ≡ false
other_id j k h = elim (Bool-cases (str_eq (rule_id j) (rule_id k))) [
  | inl same ↦ absurd (omega (arith, rule_id_inj j k ((eq_iff (rule_id j) (rule_id k)).0 same)))
  | inr other ↦ other
]

-- xs without the first x
remove_first : String → List String → List String
remove_first x [] = []
remove_first x (y ∷ ys) = let rest = remove_first x ys in if str_eq x y then ys else y ∷ rest

length-remove_first :
    (x : String) (xs : List String)
    → member x xs ≡ true
    → suc (length (remove_first x xs)) ≡ length xs
unfolding remove_first
length-remove_first x [] h = absurd (cc h)
length-remove_first x (y ∷ ys) h = ground (arith, length-remove_first x ys)

member-remove_first :
    (z x : String) (xs : List String)
    → str_eq z x ≡ false
    → member z (remove_first x xs) ≡ member z xs
unfolding remove_first
member-remove_first z x [] h = refl
member-remove_first z x (y ∷ ys) h =
    ground (arith, eq_iff x y, eq_iff z y, eq_iff z x, member-remove_first z x ys)

-- `taken` and `rest` hold the same ids from `k` on
abbrev SameFrom : ℕ → List String → List String → Type 0
SameFrom k taken rest = (j : ℕ) → k ≤ j → member (rule_id j) taken ≡ member (rule_id j) rest

free_index-fresh :
    (fuel k : ℕ) (taken rest : List String)
    → SameFrom k taken rest
    → length rest < fuel
    → member (rule_id (free_index fuel k taken)) taken ≡ false
unfolding free_index
free_index-fresh zero k taken rest same h = absurd (omega arith)
free_index-fresh (suc fuel) k taken rest same h = elim (Bool-cases (member (rule_id k) taken)) [
  | inl there ↦ rw there (
      free_index-fresh fuel (suc k) taken (remove_first (rule_id k) rest)
        (λ j le.
          same j (omega (arith, le))
          ∙ sym
              (member-remove_first (rule_id j) (rule_id k) rest (other_id j k (omega (arith, le)))))
        (omega (arith, length-remove_first (rule_id k) rest (sym (same k (omega arith)) ∙ there))))
  | inr free ↦ rw free free
]

-- The id of a new rule is not that of a rule of the run, whichever have been removed.
pub next_id-fresh : (taken : List String) → member (next_id taken) taken ≡ false
unfolding next_id
next_id-fresh taken =
    free_index-fresh (suc (length taken)) (suc (length taken)) taken taken (λ j le. refl)
      (omega arith)
