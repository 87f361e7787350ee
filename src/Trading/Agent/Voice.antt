-- ===== src/Trading/Agent/Voice.antt =====
-- services/trading/agent.py: `_signal`, which asks the model for a direction. The texts of the prompt
-- are not modelled: the gateway is given the symbol, the market context and the scenario.
use Prim.Native.String.{String}
use agnostix_ai_quant_fund.Prelude.{Option, none, some, List, [], ◌∷◌, if◌then◌else◌}
use agnostix_ai_quant_fund.Prelude.Text.{str_eq, upper}
use agnostix_ai_quant_fund.Prelude.Outcome.{Outcome, returns, raises, ◌>>=◌}
use agnostix_ai_quant_fund.Number.{Float}
use agnostix_ai_quant_fund.Trading.{Signal, make_signal}
use agnostix_ai_quant_fund.Trading.Agent.{
  SignalOutput, MarketContext, Reply, Gateway, Event, signal_skipped, signal_failed,
}
use agnostix_ai_quant_fund.Trading.Agent.Context.{to_direction}

-- the events of `_signal`, and its result
abbrev pub Voice : Type 0 → Type 0
Voice W = List (Event W) × Outcome (Option (Signal W))

module _ {W J : Type 0} ⦃num : Float W⦄ where
  -- `_parse_json`
  abbrev parse_json : Gateway W J → Option String → Option J
  parse_json g none = none
  parse_json g (some text) = if str_eq text "" then none else g.loads text

  abbrev pub payload_of : Gateway W J → Reply J → Option J
  payload_of g reply = elim reply.structured [ none ↦ parse_json g reply.content | some j ↦ some j ]

  -- `Signal(...)` of an output that is valid; its own constraint may still raise
  unfoldable pub signal_from_output : String → Reply J → Outcome (SignalOutput W) → Voice W
  signal_from_output symbol reply (raises e) = (signal_failed "schema violation" ∷ [], returns none)
  signal_from_output symbol reply (returns out) = (
    [],
    (do
      s ← make_signal (record {
        symbol = upper symbol;
        direction = to_direction out.direction;
        confidence = out.confidence;
        thesis = out.thesis;
        catalyst = out.catalyst;
        invalidation = out.invalidation;
        model = some reply.model;
        provider = some reply.provider;
      })
      returns (some s)),
  )

  unfoldable pub signal_from_payload : Gateway W J → String → Reply J → Option J → Voice W
  signal_from_payload g symbol reply none =
      (signal_failed "unparseable model output" ∷ [], returns none)
  signal_from_payload g symbol reply (some j) = signal_from_output symbol reply (g.validate j)

  unfoldable pub signal_from_reply : Gateway W J → String → Outcome (Reply J) → Voice W
  signal_from_reply g symbol (raises e) = (signal_failed e ∷ [], returns none)
  signal_from_reply g symbol (returns reply) =
      signal_from_payload g symbol reply (payload_of g reply)

  -- `_signal`
  unfoldable pub signal : Option (Gateway W J) → String → MarketContext W → Option String → Voice W
  signal none symbol context scenario = (signal_skipped ∷ [], returns none)
  signal (some g) symbol context scenario =
      signal_from_reply g symbol (g.run (upper symbol) context scenario)
