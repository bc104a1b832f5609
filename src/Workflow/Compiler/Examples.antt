-- ===== src/Workflow/Compiler/Examples.antt =====
-- Tests and instances of the theorems on the compiler of workflows.
use deconstruct.Base.{
  member, ◌&&◌, text_eq, leb, ltb, if◌then◌else◌, codes, true, false, some, [], ◌∷◌, ◌≡◌, refl,
  arith,
}
use deconstruct.Store.{absent, WorkflowStep}
use deconstruct.Workflow.Sources.{SourceValue, sensitive_field, flat_path, extraction_key}
use deconstruct.Workflow.Asserts.{assert_status}
use deconstruct.Workflow.Compiler.{
  ensure_extraction, expected_statuses, file_ext, unique, unique_from,
}
use deconstruct.Workflow.Compiler.Suggest.{learn}
use deconstruct.Workflow.Compiler.Known.{IsGood, learn-IsGood}
use deconstruct.Workflow.Compiler.Extraction

extension : file_ext (codes "/a.b/app.min.js") ≡ codes ".js"
unfolding file_ext
extension = refl

kept_once : unique (codes "a" ∷ codes "b" ∷ codes "a" ∷ []) ≡ codes "a" ∷ codes "b" ∷ []
unfolding unique unique_from member
kept_once = refl

abbrev step : WorkflowStep
step = record {
  id = codes "step_01";
  flow_id = codes "flow_1";
  name = [];
  class = [];
  included = true;
  reason = [];
  overrides = absent;
  extract = [];
  assertions = record { status = []; json_path = []; header = []; body_contains = [] };
  replay_profile = [];
  profile_options = [];
}

csrf_is_sensitive : sensitive_field (flat_path (codes "$.csrf1")) ≡ true
unfolding sensitive_field flat_path
csrf_is_sensitive = refl

token_is_sensitive : sensitive_field (flat_path (codes "$.token")) ≡ true
unfolding sensitive_field flat_path
token_is_sensitive = refl

ensure_extraction-collides_example :
    Extraction.extraction (codes "step_01") (extraction_key (codes "$.csrf1")) (
      ensure_extraction (Extraction.source_at (codes "step_01") (codes "$.token") (codes "t1")) (
        ensure_extraction
          (Extraction.source_at (codes "step_01") (codes "$.csrf1") (codes "c1"))
          (step ∷ [])))
    ≡ some (codes "$.token")
unfolding flat_path Extraction.has_step
ensure_extraction-collides_example =
    Extraction.ensure_extraction-collides (codes "step_01") (codes "$.csrf1") (codes "$.token")
      (codes "c1") (codes "t1") (step ∷ []) csrf_is_sensitive token_is_sensitive refl refl

abbrev csrf_source : SourceValue
csrf_source = Extraction.source_at (codes "step_01") (codes "$.csrf1") (codes "c1-value")

extraction-ensure_extraction_example :
    Extraction.extraction (codes "step_01") (codes "id") (ensure_extraction csrf_source (step ∷ []))
    ≡ (if text_eq csrf_source.step_id (codes "step_01")
          && (text_eq csrf_source.key (codes "id")
              && Extraction.has_step (codes "step_01") (step ∷ []))
        then some csrf_source.path
        else Extraction.extraction (codes "step_01") (codes "id") (step ∷ []))
extraction-ensure_extraction_example =
    Extraction.extraction-ensure_extraction csrf_source (codes "step_01") (codes "id") (step ∷ [])

assert_status-expected_statuses_example :
    assert_status 404 (expected_statuses 404) false ≡ (leb 200 404 && ltb 404 400)
assert_status-expected_statuses_example = Extraction.assert_status-expected_statuses 404

learn-IsGood_example :
    IsGood (learn (csrf_source ∷ csrf_source ∷ []) (record { previous = []; by_value = [] }))
learn-IsGood_example =
    learn-IsGood (csrf_source ∷ csrf_source ∷ []) (record { previous = []; by_value = [] })
      (omega arith, tt)
