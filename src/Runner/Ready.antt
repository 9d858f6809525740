-- ===== src/Runner/Ready.antt =====
-- rescan/pipeline/runner.py: the candidates that `_screen_run` screens.
use rescan.Prelude.{◌≡◌, refl, String, Option, none, some, List, [], ◌∷◌}
use rescan.Prelude.Float.{FloatOps}
use rescan.Prelude.Result.{Result}
use rescan.Schemas.{CandidateStatus, AnonymizedProfile}
use rescan.Store.Rows.{CandidateRow}
use rescan.Store.Reads.{same_status}
use rescan.Runner.Screening.{RunEnv, add_ready, ready_in}

abbrev pub Ready : Type 0 → Type 0
Ready F = List (String × Result (AnonymizedProfile F))

module _ {W F Data File : Type 0} ⦃fl : FloatOps F⦄ (e : RunEnv W F Data File) where
  abbrev with_profile :
      CandidateStatus → String → Option (Result (AnonymizedProfile F)) → Ready F → Ready F
  with_profile CandidateStatus.ready id (some loaded) more = (id, loaded) ∷ more
  with_profile _ id _ more = more

  -- the candidates that are ready, each with what its profile is read as
  abbrev pub ready_candidates : List CandidateRow → Ready F
  ready_candidates [] = []
  ready_candidates (c ∷ cs) =
      with_profile c.status c.id (e.load_profile c.anonymized_json) (ready_candidates cs)

  module _ (batch run : String) where
    with_profile-add_ready :
        (status : CandidateStatus) (id : String) (loaded : Option (Result (AnonymizedProfile F)))
        (more : Ready F)
        → add_ready e batch run (same_status status CandidateStatus.ready) id loaded more
          ≡ with_profile status id loaded more
    unfolding same_status
    with_profile-add_ready CandidateStatus.pending id loaded more = refl
    with_profile-add_ready CandidateStatus.extracting id loaded more = refl
    with_profile-add_ready CandidateStatus.structuring id loaded more = refl
    with_profile-add_ready CandidateStatus.anonymizing id loaded more = refl
    with_profile-add_ready CandidateStatus.ready id none more = refl
    with_profile-add_ready CandidateStatus.ready id (some loaded) more = refl
    with_profile-add_ready CandidateStatus.needs_manual_review id loaded more = refl
    with_profile-add_ready CandidateStatus.failed id loaded more = refl
    with_profile-add_ready CandidateStatus.duplicate id loaded more = refl

    pub ready_in-ready_candidates :
        (cs : List CandidateRow) → ready_in e batch run cs ≡ ready_candidates cs
    unfolding ready_in
    ready_in-ready_candidates [] = refl
    ready_in-ready_candidates (c ∷ cs) = rw (ready_in-ready_candidates cs) (
        with_profile-add_ready c.status c.id (e.load_profile c.anonymized_json)
          (ready_candidates cs))
