-- ===== src/Store/Reads.antt =====
-- rescan/store.py: the reads. A row comes back as it is: its JSON columns are texts, which the
-- caller loads.
use Prim.Native.Char.{code}
use rescan.Prelude.{
  ℕ, ◌+◌, String, Bool, true, false, ◌&&◌, ◌||◌, Option, List, [], ◌∷◌, filter, if◌then◌else◌, ltb,
  ◌==◌, count_if, ◌≡◌, refl, arith,
}
use rescan.Prelude.Text.{str_eq}
use rescan.Schemas.{CandidateStatus, CandidateOutcome}
use rescan.Store.Rows.{BatchRow, CandidateRow, RunRow, ResultRow, Store}
use rescan.Store.Operations.{find}

-- the order of texts, by code points
abbrev pub str_lt : String → String → Bool
str_lt s String.[] = false
str_lt String.[] (String.◌∷◌ d t) = true
str_lt (String.◌∷◌ c s) (String.◌∷◌ d t) = ltb (code c) (code d) || code c == code d && str_lt s t

-- ORDER BY: rows that are equal in the order stay as they stand
abbrev pub insert_by : {A : Type 0} → (A → A → Bool) → A → List A → List A
insert_by lt x [] = x ∷ []
insert_by lt x (y ∷ ys) = let rest = insert_by lt x ys in if lt y x then y ∷ rest else x ∷ y ∷ ys

unfoldable pub order_by : {A : Type 0} → (A → A → Bool) → List A → List A
order_by lt [] = []
order_by lt (x ∷ xs) = insert_by lt x (order_by lt xs)

unfoldable pub same_status : CandidateStatus → CandidateStatus → Bool
same_status CandidateStatus.pending CandidateStatus.pending = true
same_status CandidateStatus.extracting CandidateStatus.extracting = true
same_status CandidateStatus.structuring CandidateStatus.structuring = true
same_status CandidateStatus.anonymizing CandidateStatus.anonymizing = true
same_status CandidateStatus.ready CandidateStatus.ready = true
same_status CandidateStatus.needs_manual_review CandidateStatus.needs_manual_review = true
same_status CandidateStatus.failed CandidateStatus.failed = true
same_status CandidateStatus.duplicate CandidateStatus.duplicate = true
same_status _ _ = false

unfoldable pub same_outcome : CandidateOutcome → CandidateOutcome → Bool
same_outcome CandidateOutcome.eligible CandidateOutcome.eligible = true
same_outcome CandidateOutcome.excluded CandidateOutcome.excluded = true
same_outcome CandidateOutcome.needs_manual_review CandidateOutcome.needs_manual_review = true
same_outcome _ _ = false

unfoldable pub get_batch : String → Store → Option BatchRow
get_batch id s = find (λ b. str_eq (BatchRow.id b) id) s.batches

abbrev pub in_batch : String → CandidateRow → Bool
in_batch batch c = str_eq c.batch_id batch

-- the count of a status; `batch_counts` has each status, zero where there is no row
unfoldable pub batch_count : String → CandidateStatus → Store → ℕ
unfolding same_status
batch_count batch status s =
    count_if (λ c. in_batch batch c && same_status c.status status) s.candidates

-- sum(batch["counts"].values())
unfoldable pub batch_total : String → Store → ℕ
unfolding batch_count
batch_total batch s =
    batch_count batch CandidateStatus.pending s
    + batch_count batch CandidateStatus.extracting s
    + batch_count batch CandidateStatus.structuring s
    + batch_count batch CandidateStatus.anonymizing s
    + batch_count batch CandidateStatus.ready s
    + batch_count batch CandidateStatus.needs_manual_review s
    + batch_count batch CandidateStatus.failed s
    + batch_count batch CandidateStatus.duplicate s

unfoldable pub get_candidate : String → Store → Option CandidateRow
get_candidate id s = find (λ c. str_eq (CandidateRow.id c) id) s.candidates

-- created_at, filename
abbrev pub listed_before : CandidateRow → CandidateRow → Bool
listed_before a b =
    str_lt a.created_at b.created_at
    || str_eq a.created_at b.created_at && str_lt a.filename b.filename

unfoldable pub list_candidates : String → Store → List CandidateRow
unfolding order_by
list_candidates batch s = order_by listed_before (filter (in_batch batch) s.candidates)

unfoldable pub get_run : String → Store → Option RunRow
get_run id s = find (λ r. str_eq (RunRow.id r) id) s.runs

unfoldable pub list_results : String → Store → List ResultRow
unfolding order_by
list_results run s =
    order_by (λ a b. str_lt (ResultRow.candidate_ref a) (ResultRow.candidate_ref b))
      (filter (λ r. str_eq (ResultRow.run_id r) run) s.results)

unfoldable pub run_count : String → CandidateOutcome → Store → ℕ
unfolding same_outcome
run_count run outcome s =
    count_if (λ r. str_eq (ResultRow.run_id r) run && same_outcome r.outcome outcome) s.results

unfoldable pub run_screened : String → Store → ℕ
unfolding run_count
run_screened run s =
    run_count run CandidateOutcome.eligible s
    + run_count run CandidateOutcome.excluded s
    + run_count run CandidateOutcome.needs_manual_review s

abbrev one_if : Bool → ℕ
one_if true = 1
one_if false = 0

count_if_cons :
    {A : Type 0} (p : A → Bool) (x : A) (xs : List A)
    → count_if p (x ∷ xs) ≡ one_if (p x) + count_if p xs
count_if_cons p x xs = ground arith

-- a row is counted once, under its own status
one_status :
    (b : Bool) (s : CandidateStatus)
    → one_if (b && same_status s CandidateStatus.pending)
        + one_if (b && same_status s CandidateStatus.extracting)
        + one_if (b && same_status s CandidateStatus.structuring)
        + one_if (b && same_status s CandidateStatus.anonymizing)
        + one_if (b && same_status s CandidateStatus.ready)
        + one_if (b && same_status s CandidateStatus.needs_manual_review)
        + one_if (b && same_status s CandidateStatus.failed)
        + one_if (b && same_status s CandidateStatus.duplicate)
      ≡ one_if b
unfolding same_status
one_status false s = refl
one_status true CandidateStatus.pending = refl
one_status true CandidateStatus.extracting = refl
one_status true CandidateStatus.structuring = refl
one_status true CandidateStatus.anonymizing = refl
one_status true CandidateStatus.ready = refl
one_status true CandidateStatus.needs_manual_review = refl
one_status true CandidateStatus.failed = refl
one_status true CandidateStatus.duplicate = refl

rows_total :
    (batch : String) (s : Store) (cs : List CandidateRow)
    → batch_total batch (record s { candidates = cs }) ≡ count_if (in_batch batch) cs
unfolding batch_total
rows_total batch s [] = omega arith
rows_total batch s (c ∷ cs) = omega (
  arith,
  count_if_cons {A = CandidateRow},
  one_status (in_batch batch c) c.status,
  rows_total batch s cs,
)

-- Each candidate of a batch is counted under one status.
pub batch_total-count_if :
    (batch : String) (s : Store) → batch_total batch s ≡ count_if (in_batch batch) s.candidates
unfolding batch_total
batch_total-count_if batch s = rows_total batch s s.candidates
