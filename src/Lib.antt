-- ===== src/Lib.antt =====
-- Verification of Rescan, a screening service for job applications. A recruiter writes rules in a
-- small query language; a rule that parses is decided over the structured and anonymized profile
-- of each candidate in three-valued logic, so that a value the resume leaves out is unknown and
-- never an exclusion. Candidates whose requirements do not fail are scored and ranked, and
-- everything is kept in a store with an audit trail. The paths below are from the repository's
-- root.
--
-- Prelude is what the program takes from Python: Lists and Text for `list` and `str`, Float for
-- `float` (a type with the operations the program uses, given to every definition as an instance,
-- since the kernel has no IEEE arithmetic), Result for exceptions and for methods that may raise
-- and change an object. Texts are those of ASCII where case matters, `letter` is exact for the
-- first thirty alternatives of an OR, and Python's integers that count things are natural numbers.
--
-- Schemas is rescan/schemas.py: the profile, the lifecycle states, scores and shortlists. Dsl is
-- rescan/dsl. Dsl.Ast is ast.py: the nodes, `to_dsl` and the walks over the tree. Dsl.Fields is
-- fields.py: each field of the vocabulary with its reader, the records that ANY and the aggregates
-- run over, the aliases and the forbidden identifiers; a field's group and description, which
-- serve the reference text alone, are left out. Dsl.Parser is parser.py: Lexer is the tokenizer,
-- Token and Operand are the helpers and the comparison, Grammar the recursive descent, Program the
-- clauses and Text the entry points. An error keeps its kind, its position and the forbidden
-- identifier, not its text. Dsl.Eval is eval.py: Leaf, Records and Connectives are its `_leaf…`,
-- `_any_record`, `_aggregate`, `_and`, `_or` and `_not`, and Evaluate ties them together; a judge
-- answers ASK and may keep a state, which the evaluation passes along in the order of the calls.
-- Dsl.Verdict holds the verdicts and, of judge.py, the votes and results as data; Dsl.Judge is the
-- rest of judge.py: Votes for the evidence and the majority, Ask for the memo and the calls.
--
-- Dsl.Parser.Typed says what a well-typed rule is without reference to any text, and
-- Dsl.Parser.Sound is about what parses. Dsl.Eval.Kleene is the abstract view of evaluation,
-- Kleene's three-valued logic with no order and no early exit, and its children relate evaluation
-- to it. Dsl.Eval.Lazy is about the model calls that evaluation saves, Dsl.Eval.Counts about COUNT
-- over entries that are partly unassessed. Dsl.Ast.Ambiguous is about the canonical text.
--
-- Rules is rescan/rules: Models for models.py and Engine for engine.py, with `screen` and what it
-- concludes. Pipeline.Rank is rescan/pipeline/rank.py: Criteria and Score for `criteria_for` and
-- `score_candidate`, Order for the sort, Select for `triage_rank`, `borderline_refs` and
-- `build_shortlist`. Pipeline.Anonymize is rescan/pipeline/anonymize.py: Scrub for the tokens, the
-- scrub and the search, with each regular expression written out, and Parts and Pass for
-- `anonymize_resume`; Closed is about the profiles that are let through, Signs about the pattern
-- and tokens that begin with a sign. Each step of the scrub takes a character at least, so its
-- fuel is the length of the text. Pipeline.Ensemble is rescan/pipeline/ensemble.py, one candidate
-- after the other; an LLMError becomes a RankingError, which the ensemble catches. Store is
-- rescan/store.py: Rows for the tables as lists of rows, Operations for the methods that write,
-- Reads and Trails for those that read, Calls for the calls as data. Rules.Statutes is the table
-- of rules/statutes.py, and Rules.Classifier is rules/classifier.py: the scan and the findings,
-- with Build for one rule and its repair and Plan for whole plans.
--
-- Runner is pipeline/runner.py, which ties the parts together. Runner.Env holds the services that
-- it calls: the clock, the files, the extraction, the structuring and the anonymization, the
-- serialisers. Ingest is the ingestion of one document, Batch the upload and the ingestion of a
-- batch, Rules the rules of a run, with the details of their audit in Details, Screening
-- `_screen_run` with its judge, Ranking `_rank` and `_ensemble`, Runs the creation and the
-- execution of a run. The worker threads take the documents and the candidates one after the
-- other, as one worker does. Acts says what a document may change, Waiting which documents a plan
-- is about, Settled, Processed, Statuses and Uploads are about batches, RuleIds, Added and Removed
-- about the rules of a run, Ready, Outcomes and Screened about its results, Finished about its
-- status. Dsl.Eval.Keeps, Rules.Engine.Keeps and Dsl.Judge.Keeps are about the state that a judge
-- has.
--
-- The language model's client is a parameter of the scores, the judge one of evaluation; what a
-- theorem needs of them (a judge that answers a question alike each time, a client that always
-- answers) it says as a hypothesis. The order of the floats is a hypothesis where a proof needs
-- it. The descent of the parser takes six units of fuel for each token and four more, the loop
-- over clauses two for each token and two more, and both are proved to be enough on any tokens.
--
-- Not modelled: the messages of the parser, the queries and the bias audit, which are pure Python;
-- and documents, OCR, object stores, the HTTP API, the model client and the deployment, which are
-- input and output.
pub mod Prelude
pub mod Schemas
pub mod Dsl
pub mod Rules
pub mod Pipeline
pub mod Store
pub mod Runner
mod Tests
