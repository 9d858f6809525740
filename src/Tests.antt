-- ===== src/Tests.antt =====
-- The theorems at concrete inputs, with the tests of the definitions.
mod Samples
mod Evaluation
mod Parsing
mod Ranking
mod Storing
mod Judging
mod Ensembles
mod Texts
mod Lexing
mod Classifying
mod Running
mod Runs
mod Anonymizing
