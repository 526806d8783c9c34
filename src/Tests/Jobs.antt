-- ===== src/Tests/Jobs.antt =====
-- A job of three stages: log lines, subscribers, and a stage that fails.
use el_sca_ansamble.Prelude.{
  ◌<◌, String, ◌≡◌, refl, true, false, some, List, [], ◌∷◌, All, length, arith,
}
use el_sca_ansamble.Prelude.Int.{pos}
use el_sca_ansamble.Prelude.Keys.{insert, lookup, string_eq}
use el_sca_ansamble.Orchestrator.Stage.{StageSpec, index_from, initial_stage_list}
use el_sca_ansamble.Orchestrator.Job.{
  errored, LogLine, Call, feeds, begins, ends, subscribes, new_job, end_stage, finalize, finish,
  run_calls,
}
use el_sca_ansamble.Orchestrator.Streams.{is_closed, StreamsOk, run_calls-streams, finish-closes}
use el_sca_ansamble.Orchestrator.Pipeline.{IsPipeline, feed_lines, feed_lines-IsPipeline}
use el_sca_ansamble.Orchestrator.Failure.{Step, Avoids, steps, finalize-failed}

abbrev specs : List StageSpec
specs =
    record { key = "extract"; label = "Extract"; services = "artifact-extractor" ∷ [] }
    ∷ record { key = "sbom"; label = "SBOM"; services = "syft-sbom" ∷ [] }
    ∷ record { key = "report"; label = "Report"; services = "report-collector" ∷ [] }
    ∷ []

abbrev log_line : String → LogLine
log_line service = record {
  text = "scanning";
  is_bar = false;
  pct = some 2500;
  service = some service;
}

abbrev log_lines : List LogLine
log_lines = log_line "artifact-extractor" ∷ log_line "demo-syft-sbom" ∷ []

feed_lines-IsPipeline_example :
    let job = feed_lines log_lines (new_job specs) in IsPipeline job.max_index job.stages
feed_lines-IsPipeline_example = feed_lines-IsPipeline specs log_lines

abbrev calls : List Call
calls = subscribes ∷ feeds (log_line "syft-sbom") ∷ begins "sbom" ∷ ends "sbom" true ∷ []

run_calls-streams_example : StreamsOk (run_calls calls (new_job specs))
run_calls-streams_example = run_calls-streams specs calls

finish-closes_example :
    All
      (λ q. is_closed q.items ≡ true)
      (run_calls (subscribes ∷ []) (finish (pos 0) (run_calls calls (new_job specs)))).queues
finish-closes_example = finish-closes specs calls (subscribes ∷ []) (pos 0)

abbrev rest : List Step
rest = Step.begins "report" ∷ Step.ends "report" true ∷ []

sbom_known : lookup "sbom" (new_job specs).index ≡ some 1
unfolding lookup new_job index_from insert
sbom_known = refl

sbom_in_range : 1 < length (new_job specs).stages
unfolding new_job initial_stage_list
sbom_in_range = omega arith

rest-Avoids : Avoids 1 (new_job specs).index rest
unfolding Avoids lookup new_job index_from insert
rest-Avoids = ((λ e. absurd (cc)), tt)

finalize-failed_example :
    let ended = finalize (steps rest (end_stage "sbom" false (new_job specs))) in
    (ended.status ≡ errored) × (ended.returncode ≡ some (pos 1))
finalize-failed_example =
    finalize-failed 1 "sbom" rest (new_job specs) sbom_known sbom_in_range rest-Avoids
