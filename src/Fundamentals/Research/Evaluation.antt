-- ===== src/Fundamentals/Research/Evaluation.antt =====
-- services/fundamentals/research/evaluation.py: the runs of many models on one context. The gateways,
-- which the factory makes or fails to make, the clock and the rendered context are arguments.
pub mod Isolation
use Prim.Native.String.{String, ◌++◌ as text_append}
use agnostix_ai_quant_fund.Prelude.{
  ℕ, ◌+◌, Bool, true, false, not, ◌&&◌, ◌||◌, Option, none, some, List, [], ◌∷◌, ◌++◌, filter,
  length, ◌==◌, if◌then◌else◌,
}
use agnostix_ai_quant_fund.Prelude.Text.{str_eq, starts_with}
use agnostix_ai_quant_fund.Prelude.Outcome.{Outcome, returns, raises}
use agnostix_ai_quant_fund.Prelude.Dicts.{lookup, assign}
use agnostix_ai_quant_fund.Number.{Float, ◌⊕◌, nought, or_zero}
use agnostix_ai_quant_fund.Fundamentals.Context.{FundamentalResearchContext}
use agnostix_ai_quant_fund.Fundamentals.Research.{
  FundamentalView, InvestmentThesis, Verdict, pass, supported, ClaimCheck,
}
use agnostix_ai_quant_fund.Fundamentals.Research.Numbers.{FloatText}
use agnostix_ai_quant_fund.Fundamentals.Research.Grounding.{Checks, run_deterministic_checks}
use agnostix_ai_quant_fund.Fundamentals.Research.Trail.{Event, evaluation_model_finished}
use agnostix_ai_quant_fund.Fundamentals.Research.Critic.{CriticResult, critic_run}
use agnostix_ai_quant_fund.Fundamentals.Research.Analyst.{Author, AgentRunResult, agent_run}

pub record ModelTarget : Type 0 where
  pub provider : String
  pub model : String

pub record EvaluationRecord (W : Type 0) : Type 0 where
  pub provider : String
  pub model : String
  pub context_version : String
  pub context_hash : String
  pub symbol : String
  pub status : String
  pub latency_ms : ℕ
  pub input_tokens : Option ℕ
  pub output_tokens : Option ℕ
  pub total_tokens : Option ℕ
  pub estimated_cost_usd : Option W
  pub success : Bool
  pub schema_valid : Bool
  pub error : Option String
  pub fundamental_view : Option FundamentalView
  pub confidence : Option W
  pub critic_verdict : Option Verdict
  pub grounding_passed : Option Bool
  pub unsupported_claims : ℕ
  pub contradicted_claims : ℕ
  pub evidence_coverage : Option W
  pub data_gaps : List String
  pub model_version : Option String

-- a target, what the factory answers for it, and the milliseconds that pass until an exception
pub record Visit (P W : Type 0) : Type 0 where
  pub target : ModelTarget
  pub gateway : Outcome (Author P W)
  pub elapsed : ℕ

abbrev is_evidence : ClaimCheck → Bool
is_evidence c = starts_with c.statement "evidence:"

abbrev is_supported : ClaimCheck → Bool
is_supported c = elim c.status [ supported ↦ true | _ ↦ false ]

module _ {W : Type 0} ⦃num : Float W⦄ where
  -- `_evidence_coverage`
  pub evidence_coverage_of : List ClaimCheck → Option W
  evidence_coverage_of checks =
      let evidence = filter is_evidence checks in
      if length evidence == 0
      then none
      else some (
          num.div (num.decimal (length (filter is_supported evidence)) 0)
            (num.decimal (length evidence) 0))

module _ {W : Type 0} where
  -- the record of a target before its run; `_failed_record` is this one with its error
  abbrev pub new_record : FundamentalResearchContext W → ModelTarget → EvaluationRecord W
  new_record ctx target = record {
    provider = target.provider;
    model = target.model;
    context_version = ctx.context_version;
    context_hash = ctx.context_hash;
    symbol = ctx.symbol;
    status = "completed";
    latency_ms = 0;
    input_tokens = none;
    output_tokens = none;
    total_tokens = none;
    estimated_cost_usd = none;
    success = false;
    schema_valid = false;
    error = none;
    fundamental_view = none;
    confidence = none;
    critic_verdict = none;
    grounding_passed = none;
    unsupported_claims = 0;
    contradicted_claims = 0;
    evidence_coverage = none;
    data_gaps = ctx.unavailable;
    model_version = none;
  }

  pub failed_record : FundamentalResearchContext W → ModelTarget → String → EvaluationRecord W
  failed_record ctx target e = record (new_record ctx target) { status = "failed"; error = some e }

  -- the handler of `evaluate_model`
  abbrev with_error : ℕ → String → EvaluationRecord W → EvaluationRecord W
  with_error elapsed e r = record r {
    status = "failed";
    success = false;
    error = some e;
    latency_ms = elapsed;
  }

  abbrev with_run : ℕ → AgentRunResult W → EvaluationRecord W → EvaluationRecord W
  with_run elapsed run r = record r {
    latency_ms = if run.latency_ms == 0 then elapsed else run.latency_ms;
    success = true;
    schema_valid = true;
    fundamental_view = some run.thesis.fundamental_view;
    confidence = some run.thesis.confidence;
    model_version = if str_eq run.model "" then none else some run.model;
    input_tokens = run.input_tokens;
    output_tokens = run.output_tokens;
    total_tokens = run.total_tokens;
    estimated_cost_usd = run.estimated_cost_usd;
  }

-- the events and the record of a model
abbrev pub Scored : Type 0 → Type 0
Scored W = List (Event W) × EvaluationRecord W

-- the events and the records of a loop
abbrev pub Records : Type 0 → Type 0
Records W = List (Event W) × Outcome (List (EvaluationRecord W))

module _ {W : Type 0} ⦃num : Float W⦄ where
  abbrev with_checks : Checks → EvaluationRecord W → EvaluationRecord W
  with_checks det r = record r {
    grounding_passed = some det.passed;
    unsupported_claims = det.unsupported_count;
    contradicted_claims = det.contradicted_count;
    evidence_coverage = evidence_coverage_of det.claim_checks;
  }

  abbrev criticized : ℕ → EvaluationRecord W → List (Event W) × Outcome CriticResult → Scored W
  criticized elapsed r (log, raises e) = (log, with_error elapsed e r)
  criticized elapsed r (log, returns result) =
      (log, record r { critic_verdict = some result.review.verdict })

module _ {W : Type 0} ⦃num : Float W⦄ ⦃texts : FloatText W⦄ (ctx : FundamentalResearchContext W)
    (rendered : String) where
  abbrev grounded :
      ℕ → InvestmentThesis W → EvaluationRecord W → List (Event W) → Outcome Checks → Scored W
  grounded elapsed thesis r log (raises e) = (log, with_error elapsed e r)
  grounded elapsed thesis r log (returns det) =
      criticized elapsed (with_checks det r)
        (critic_run {P = Unit {0}} none ctx thesis rendered log)

  abbrev ran : ℕ → EvaluationRecord W → List (Event W) × Outcome (AgentRunResult W) → Scored W
  ran elapsed r (log, raises e) = (log, with_error elapsed e r)
  ran elapsed r (log, returns run) =
      grounded elapsed run.thesis (with_run elapsed run r) log
        (run_deterministic_checks run.thesis ctx rendered)

module _ {P W : Type 0} ⦃num : Float W⦄ ⦃texts : FloatText W⦄ (ctx : FundamentalResearchContext W)
    (rendered : String) where
  -- `evaluate_model`
  pub evaluate_model : ModelTarget → ℕ → Author P W → List (Event W) → Scored W
  evaluate_model target elapsed gateway log =
      ran ctx rendered elapsed (new_record ctx target) (agent_run gateway ctx log)

module _ {W : Type 0} (ctx : FundamentalResearchContext W) where
  -- `_emit_model_event`
  abbrev model_event : EvaluationRecord W → Event W
  model_event r = evaluation_model_finished ctx.symbol r.provider r.model r.status none

  abbrev gateway_event : EvaluationRecord W → Event W
  gateway_event r = evaluation_model_finished ctx.symbol r.provider r.model r.status r.error

  -- `_verify_same_context`
  unfoldable pub verify_same_context : EvaluationRecord W → Outcome (Unit {0})
  verify_same_context r =
      if str_eq r.context_version ctx.context_version && str_eq r.context_hash ctx.context_hash
      then returns tt
      else raises "EvaluationInvariantError"

-- a record in front of those of the rest of the loop
abbrev with_record : {W : Type 0} → EvaluationRecord W → Records W → Records W
with_record r (log, raises e) = (log, raises e)
with_record r (log, returns rs) = (log, returns (r ∷ rs))

module _ {W : Type 0} (ctx : FundamentalResearchContext W) where
  abbrev verified : (List (Event W) → Records W) → Scored W → Outcome (Unit {0}) → Records W
  verified rest (log, r) (raises e) = (log, raises e)
  verified rest (log, r) (returns ok) = with_record r (rest (log ++ (model_event ctx r ∷ [])))

  abbrev scored : (List (Event W) → Records W) → Scored W → Records W
  scored rest s = verified rest s (verify_same_context ctx s.1)

module _ {P W : Type 0} ⦃num : Float W⦄ ⦃texts : FloatText W⦄ (ctx : FundamentalResearchContext W)
    (rendered : String) where
  -- one turn of the loop of `run_evaluation`
  abbrev turn :
      (List (Event W) → Records W) → Visit P W → Outcome (Author P W) → List (Event W) → Records W
  turn rest v (raises e) log =
      let r = failed_record ctx v.target (text_append "gateway unavailable: " e) in
      with_record r (rest (log ++ (gateway_event ctx r ∷ [])))
  turn rest v (returns gateway) log =
      scored ctx rest (evaluate_model ctx rendered v.target v.elapsed gateway log)

  pub evaluate_all : List (Visit P W) → List (Event W) → Records W
  evaluate_all [] log = (log, returns [])
  evaluate_all (v ∷ vs) log = turn (evaluate_all vs) v v.gateway log

-- `CONTEXT_VERSION`
abbrev pub context_version_now : String
context_version_now = "m2-v2"

pub record EvaluationRunResult (W : Type 0) : Type 0 where
  pub symbol : String
  pub context_version : String
  pub context_hash : String
  pub unavailable : List String
  pub records : List (EvaluationRecord W)

abbrev pub Evaluated : Type 0 → Type 0
Evaluated W = List (Event W) × Outcome (EvaluationRunResult W)

module _ {W : Type 0} where
  abbrev reported :
      FundamentalResearchContext W
      → List (Event W) × Outcome (List (EvaluationRecord W))
      → Evaluated W
  reported ctx (log, raises e) = (log, raises e)
  reported ctx (log, returns rs) = (
    log,
    returns (record {
      symbol = ctx.symbol;
      context_version = ctx.context_version;
      context_hash = ctx.context_hash;
      unavailable = ctx.unavailable;
      records = rs;
    }),
  )

  -- exactly one of a context and a builder
  abbrev pub one_context :
      Option (FundamentalResearchContext W)
      → Option (String → Outcome (FundamentalResearchContext W))
      → String
      → Outcome (FundamentalResearchContext W)
  one_context (some ctx) none symbol = returns ctx
  one_context none (some build) symbol = build symbol
  one_context _ _ symbol = raises "ValueError"

module _ {P W : Type 0} ⦃num : Float W⦄ ⦃texts : FloatText W⦄ where
  -- the run on a context, or on the failure to build one
  abbrev on_context :
      (FundamentalResearchContext W → String)
      → List (Visit P W)
      → List (Event W)
      → Outcome (FundamentalResearchContext W)
      → Evaluated W
  on_context render vs log (raises e) = (log, raises e)
  on_context render vs log (returns ctx) =
      if str_eq ctx.context_version context_version_now
      then reported ctx (evaluate_all ctx (render ctx) vs log)
      else (log, raises "EvaluationInvariantError")

  abbrev targeted : List (Visit P W) → List (Event W) → Evaluated W → Evaluated W
  targeted [] log rest = (log, raises "ValueError")
  targeted (v ∷ vs) log rest = rest

  -- `run_evaluation`
  pub run_evaluation :
      (FundamentalResearchContext W → String)
      → String
      → List (Visit P W)
      → Option (FundamentalResearchContext W)
      → Option (String → Outcome (FundamentalResearchContext W))
      → List (Event W)
      → Evaluated W
  run_evaluation render symbol vs context context_builder log =
      targeted vs log (on_context render vs log (one_context context context_builder symbol))
