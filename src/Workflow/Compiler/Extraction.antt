-- ===== src/Workflow/Compiler/Extraction.antt =====
-- What `ensureExtraction` leaves in the steps, and what the asserted statuses accept.
use deconstruct.Base.{
  ℕ, Text, codes, is_empty, text_eq_refl, ◌++◌, Bool, true, false, ◌&&◌, Option, none, some, List,
  [], ◌∷◌, leb, ltb, text_eq, text_eq_iff, lookup, lookup-insert, length, ◌≡◌, refl, ap, ◌∙◌, arith,
  if◌then◌else◌,
}
use deconstruct.Base.Decimal.{decimal}
use deconstruct.Store.{WorkflowStep}
use deconstruct.Workflow.Asserts.{assert_status, holds_status}
use deconstruct.Workflow.Sources.{SourceValue, extraction_key, flat_path, sensitive_field}
use deconstruct.Workflow.Compiler.{ensure_extraction, expected_statuses}

-- the path that the step of an identifier extracts under a key: the first such step counts
unfoldable pub extraction : Text → Text → List WorkflowStep → Option Text
extraction id key [] = none
extraction id key (step ∷ steps) =
    let rest = extraction id key steps in
    if text_eq step.id id then lookup key step.extract else rest

unfoldable pub has_step : Text → List WorkflowStep → Bool
has_step id [] = false
has_step id (step ∷ steps) =
    let rest = has_step id steps in if text_eq step.id id then true else rest

-- A source is extracted by its step under its key, and no other extraction changes.
pub extraction-ensure_extraction :
    (source : SourceValue) (id key : Text) (steps : List WorkflowStep)
    → extraction id key (ensure_extraction source steps) ≡ (
        if text_eq source.step_id id && (text_eq source.key key && has_step id steps)
        then some source.path
        else extraction id key steps)
unfolding extraction ensure_extraction has_step
extraction-ensure_extraction source id key [] = ground arith
extraction-ensure_extraction source id key (step ∷ steps) = ground (
  arith,
  extraction-ensure_extraction source id key steps,
  text_eq_iff step.id source.step_id,
  text_eq_iff step.id id,
  text_eq_iff source.step_id id,
  lookup-insert source.key key source.path step.extract,
)

has_step-ensure_extraction :
    (source : SourceValue) (id : Text) (steps : List WorkflowStep)
    → has_step id (ensure_extraction source steps) ≡ has_step id steps
unfolding has_step ensure_extraction
has_step-ensure_extraction source id [] = refl
has_step-ensure_extraction source id (step ∷ steps) =
    ground (arith, has_step-ensure_extraction source id steps)

-- a source as the walk over a response makes it
abbrev pub source_at : Text → Text → Text → SourceValue
source_at step_id path value = record {
  step_id = step_id;
  key = extraction_key path;
  path = path;
  value = value;
}

extraction_key_collides :
    (p q : Text)
    → sensitive_field (flat_path p) ≡ true
    → sensitive_field (flat_path q) ≡ true
    → length (flat_path p) ≡ length (flat_path q)
    → extraction_key p ≡ extraction_key q
unfolding extraction_key
extraction_key_collides p q s t e = keys (flat_path p) (flat_path q) s t e
  where
    name : Text → Text
    name flat =
        if is_empty flat
        then codes "value"
        else if sensitive_field flat
        then codes "value_" ++ decimal (length flat)
        else flat

    keys :
        (a b : Text)
        → sensitive_field a ≡ true
        → sensitive_field b ≡ true
        → length a ≡ length b
        → name a ≡ name b
    keys [] [] s t e = refl
    keys [] (y ∷ b) s t e = absurd (omega (arith, e))
    keys (x ∷ a) [] s t e = absurd (omega (arith, e))
    keys (x ∷ a) (y ∷ b) s t e = rw (s, t) (ap (λ n. codes "value_" ++ decimal n) e)

-- Two secrets in one response whose flattened paths are of one length share their key: once both are
-- bound, the step extracts the second under it, also for the references to the first.
pub ensure_extraction-collides :
    (step_id p q v w : Text) (steps : List WorkflowStep)
    → sensitive_field (flat_path p) ≡ true
    → sensitive_field (flat_path q) ≡ true
    → length (flat_path p) ≡ length (flat_path q)
    → has_step step_id steps ≡ true
    → extraction step_id (extraction_key p) (
        ensure_extraction (source_at step_id q w) (ensure_extraction (source_at step_id p v) steps))
      ≡ some q
ensure_extraction-collides step_id p q v w steps s t e h =
    extraction-ensure_extraction (source_at step_id q w) step_id (extraction_key p)
      (ensure_extraction (source_at step_id p v) steps)
    ∙ rw (
      has_step-ensure_extraction (source_at step_id p v) step_id steps,
      h,
      text_eq_refl step_id,
      extraction_key_collides p q s t e,
      text_eq_refl (extraction_key q),
    )

-- The status that was recorded passes the assertion made from it exactly if it is from 200 to 399.
pub assert_status-expected_statuses :
    (status : ℕ)
    → assert_status status (expected_statuses status) false ≡ (leb 200 status && ltb status 400)
unfolding assert_status expected_statuses holds_status
assert_status-expected_statuses status = ground arith
