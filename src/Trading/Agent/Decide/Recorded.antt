-- ===== src/Trading/Agent/Decide/Recorded.antt =====
-- What `decide` of services/trading/agent.py leaves in the audit journal.
use Prim.Native.String.{String}
use agnostix_ai_quant_fund.Prelude.{ℕ, ◌≡◌, refl, ◌⊎◌, inl, inr, Option, none, some, Bool-cases}
use agnostix_ai_quant_fund.Prelude.Outcome.{Outcome, returns, raises}
use agnostix_ai_quant_fund.Number.{Float}
use agnostix_ai_quant_fund.Options.{OptionChain, OptionStrategy}
use agnostix_ai_quant_fund.Risk.{evaluate, passes}
use agnostix_ai_quant_fund.Trading.{
  Signal, DecisionStatus, executed, refused, abstained, error, AgentDecision, OptionOrderStatus,
}
use agnostix_ai_quant_fund.Trading.Journal.{Hashing, TradingJournal, append}
use agnostix_ai_quant_fund.Trading.Journal.Chain.{ReadsEquality, IsSound, append-IsSound}
use agnostix_ai_quant_fund.Trading.Agent.{
  AccountSnapshot, AgentConfig, MarketContext, Services, Call, Payload, World, market_ready,
}
use agnostix_ai_quant_fund.Trading.Agent.Context.{market_context}
use agnostix_ai_quant_fund.Trading.Agent.Voice.{signal}
use agnostix_ai_quant_fund.Trading.Agent.Order.{
  Handled, is_abstain, scale_strategy, size, portfolio_of, order_of, should_execute, emit, emit_all,
  close_with,
}
use agnostix_ai_quant_fund.Trading.Agent.Decide.{
  abstained_with, placed, place, gated, assess, sized, built, priced, judged, heard, seen, decide,
}

-- the kinds of entries that a status goes with
abbrev pub KindOf : DecisionStatus → String → Type 0
KindOf executed kind = kind ≡ "execution"
KindOf refused kind = kind ≡ "refusal"
KindOf error kind = kind ≡ "error"
KindOf abstained kind = (kind ≡ "abstain") ⊎ (kind ≡ "dry_run")

module _ {W H : Type 0} ⦃hashing : Hashing (Payload W) H⦄ where
  -- after a decision the journal has one entry more, of a kind that goes with the status; after an
  -- exception it is the same
  abbrev pub Recorded :
      Call
      → TradingJournal (Payload W) H
      → TradingJournal (Payload W) H
      → Outcome (AgentDecision W)
      → Type 0
  Recorded call before after (raises e) = after ≡ before
  Recorded call before after (returns d) =
      (kind : String) × (payload : Payload W) × (after
        ≡ append before call.now kind call.symbol payload)
      × KindOf d.status kind

  abbrev pub Records : Call → World W H → Handled W H → Type 0
  Records call w r = Recorded call w.journal r.0.journal r.1

module _ {W J H : Type 0} ⦃num : Float W⦄ ⦃hashing : Hashing (Payload W) H⦄ (config : AgentConfig W)
    (account : AccountSnapshot W) (services : Services W J) (call : Call) where
  abstained_with-Records :
      (reason : String) (p : Payload W) (d : AgentDecision W) (w : World W H)
      → Records call w (abstained_with config account services call reason p d w)
  unfolding abstained_with close_with
  abstained_with-Records reason p d w = ("abstain", p, refl, inl refl)

  placed-Records :
      (s : OptionStrategy W) (d : AgentDecision W) (o : Outcome OptionOrderStatus) (w : World W H)
      → Records call w (placed config account services call s d o w)
  unfolding placed close_with
  placed-Records s d (raises e) w = ("error", _, refl, refl)
  placed-Records s d (returns r) w = ("execution", _, refl, refl)

  assess-Records :
      (sg : Signal W) (rank : Option W) (s : OptionStrategy W) (d : AgentDecision W) (w : World W H)
      → Records call w (assess config account services call sg rank s d w)
  unfolding assess gated place emit close_with
  assess-Records sg rank s d w =
      let risk = evaluate s (portfolio_of account) config.budget rank in
      elim (Bool-cases (passes risk.verdict)) [
        | inl p ↦ elim (Bool-cases (should_execute config call)) [
          | inl x ↦
              rw (p, x) (placed-Records s _ (services.submit_option_order (order_of call s)) _)
          | inr x ↦ rw (p, x) ("dry_run", _, refl, inr refl)
        ]
        | inr p ↦ rw p ("refusal", _, refl, refl)
      ]

  sized-Records :
      (sg : Signal W) (rank : Option W) (s : OptionStrategy W) (d : AgentDecision W) (q : Outcome ℕ)
      (w : World W H)
      → Records call w (sized config account services call sg rank s d q w)
  unfolding sized
  sized-Records sg rank s d (raises x) w = refl
  sized-Records sg rank s d (returns q) w = assess-Records sg rank (scale_strategy s q) d w

  built-Records :
      (sg : Signal W) (rank : Option W) (d : AgentDecision W)
      (o : Outcome (Option (OptionStrategy W))) (w : World W H)
      → Records call w (built config account services call sg rank d o w)
  unfolding built
  built-Records sg rank d (raises x) w = refl
  built-Records sg rank d (returns none) w = abstained_with-Records _ _ d w
  built-Records sg rank d (returns (some s)) w = sized-Records sg rank s d (size config account s) w

  priced-Records :
      (context : MarketContext W) (sg : Signal W) (d : AgentDecision W)
      (chain : Option (OptionChain W)) (spot : Option W) (w : World W H)
      → Records call w (priced config account services call context sg d chain spot w)
  unfolding priced
  priced-Records context sg d (some chain) (some spot) w = built-Records sg context.vol_rank d _ w
  priced-Records context sg d none spot w = abstained_with-Records _ _ d w
  priced-Records context sg d (some chain) none w = abstained_with-Records _ _ d w

  judged-Records :
      (context : MarketContext W) (d : AgentDecision W) (sg : Option (Signal W)) (w : World W H)
      → Records call w (judged config account services call context d sg w)
  unfolding judged
  judged-Records context d none w = abstained_with-Records _ _ d w
  judged-Records context d (some sg) w = elim (Bool-cases (is_abstain sg.direction)) [
    | inl a ↦ rw a (abstained_with-Records _ _ d w)
    | inr a ↦ elim (Bool-cases (num.lt sg.confidence config.min_confidence)) [
      | inl l ↦ rw (a, l) (abstained_with-Records _ _ d w)
      | inr l ↦ rw (a, l) (priced-Records context sg d context.chain context.spot w)
    ]
  ]

  heard-Records :
      (context : MarketContext W) (v : Outcome (Option (Signal W))) (w : World W H)
      → Records call w (heard config account services call context v w)
  unfolding heard
  heard-Records context (raises e) w = refl
  heard-Records context (returns sg) w = judged-Records context _ sg w

  seen-Records :
      (o : Outcome (MarketContext W)) (w : World W H)
      → Records call w (seen config account services call o w)
  unfolding seen emit emit_all close_with
  seen-Records (raises e) w = ("error", _, refl, refl)
  seen-Records (returns context) w =
      let voice = signal services.gateway call.symbol context call.scenario in
      heard-Records context voice.1 (emit_all voice.0 (emit (market_ready context) w))

  -- A call of `decide` that returns a decision appends exactly one entry to the journal, of the time
  -- and symbol of the call, whose kind goes with the status of the decision; a call that raises
  -- leaves the journal as it was.
  pub decide-Records : (w : World W H) → Records call w (decide config account services call w)
  unfolding decide emit
  decide-Records w = seen-Records (market_context config services call.now call.symbol) _

  IsSound-of_Recorded :
      ReadsEquality (Payload W) H
      → (before after : TradingJournal (Payload W) H) (o : Outcome (AgentDecision W))
      → Recorded call before after o
      → IsSound before
      → IsSound after
  IsSound-of_Recorded reads before after (raises e) r s = rw r s
  IsSound-of_Recorded reads before after (returns d) (kind, payload, r, _) s =
      rw r (append-IsSound reads before call.now kind call.symbol payload s)

  -- Where `eqb` decides equality: `decide` keeps the journal sound, whatever the broker, the history
  -- and the model do.
  pub decide-IsSound :
      ReadsEquality (Payload W) H
      → (w : World W H) → IsSound w.journal
      → IsSound (decide config account services call w).0.journal
  decide-IsSound reads w = IsSound-of_Recorded reads _ _ _ (decide-Records w)
