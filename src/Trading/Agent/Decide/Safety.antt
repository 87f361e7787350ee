-- ===== src/Trading/Agent/Decide/Safety.antt =====
-- What `decide` of services/trading/agent.py sends to the broker.
use Prim.Native.String.{String}
use agnostix_ai_quant_fund.Prelude.{
  ℕ, ◌≡◌, ◌≢◌, refl, ap, ◌∙◌, ◌⊎◌, inl, inr, true, false, Option, none, some, List, [], ◌∷◌, ◌++◌,
  map, ◌==◌, ==_iff, Bool-cases,
}
use agnostix_ai_quant_fund.Prelude.Text.{upper}
use agnostix_ai_quant_fund.Prelude.Outcome.{Outcome, returns, raises}
use agnostix_ai_quant_fund.Number.{Float}
use agnostix_ai_quant_fund.Number.Order.{IsOrdered}
use agnostix_ai_quant_fund.Options.{OptionChain, OptionStrategy, OptionLeg}
use agnostix_ai_quant_fund.Options.Strategies.Covered.{IsCovered, build_strategy-IsCovered}
use agnostix_ai_quant_fund.Risk.{evaluate, passes}
use agnostix_ai_quant_fund.Risk.Verdict.{MeetsHardLimits, passes_iff}
use agnostix_ai_quant_fund.Trading.{
  value, Signal, SignalDirection, abstain, executed, AgentDecision, OptionOrderRequest,
  OptionOrderStatus,
}
use agnostix_ai_quant_fund.Trading.Journal.{Hashing}
use agnostix_ai_quant_fund.Trading.Agent.{
  AccountSnapshot, AgentConfig, MarketContext, Services, Call, Payload, World, market_ready,
}
use agnostix_ai_quant_fund.Trading.Agent.Context.{market_context}
use agnostix_ai_quant_fund.Trading.Agent.Voice.{signal}
use agnostix_ai_quant_fund.Trading.Agent.Order.{
  Handled, is_abstain, scale_strategy, size, portfolio_of, order_of, should_execute, emit, emit_all,
  close_with, env_of,
}
use agnostix_ai_quant_fund.Trading.Agent.Decide.{
  abstained_with, placed, place, gated, assess, sized, built, priced, judged, heard, seen, decide,
}

module _ {W : Type 0} ⦃num : Float W⦄ where
  -- a signal that the agent acts on
  pub record IsConvincing (config : AgentConfig W) (sg : Signal W) : Type 0 where
    pub directed : sg.direction ≢ abstain
    pub confident : num.lt sg.confidence config.min_confidence ≡ false

  -- an order that may go to the broker by a decision: it is the order of the strategy of the
  -- decision, which is covered leg by leg and meets every hard limit of the budget, for the signal
  -- of the decision, which is convincing, with execution enabled
  pub record IsAuthorized (config : AgentConfig W) (account : AccountSnapshot W) (call : Call)
      (decision : AgentDecision W) (order : OptionOrderRequest W) : Type 0 where
    pub strategy : OptionStrategy W
    pub chosen : decision.strategy ≡ some strategy
    pub made : order ≡ order_of call strategy
    pub limits : MeetsHardLimits strategy (portfolio_of account) config.budget
    pub expiration : ℕ
    pub quantity : ℕ
    pub covered : IsCovered (upper call.symbol) expiration quantity strategy.legs
    pub signal : Signal W
    pub heard : decision.signal ≡ some signal
    pub convincing : IsConvincing config signal
    pub enabled : should_execute config call ≡ true

  abbrev pub NotExecuted : Outcome (AgentDecision W) → Type 0
  NotExecuted (returns d) = d.status ≢ executed
  NotExecuted (raises e) = Unit

module _ {W H : Type 0} ⦃num : Float W⦄ where
  -- no order goes to the broker and the decision is not `executed`, or one authorized order goes
  abbrev pub Sends : AgentConfig W → AccountSnapshot W → Call → World W H → Handled W H → Type 0
  Sends config account call w r =
      ((r.0.orders ≡ w.orders) × NotExecuted r.1)
      ⊎ ((order : OptionOrderRequest W) × (d : AgentDecision W) × (r.0.orders
            ≡ w.orders ++ (order ∷ []))
          × (r.1 ≡ returns d)
          × IsAuthorized config account call d order)

not_abstain : (x : SignalDirection) → is_abstain x ≡ false → x ≢ abstain
not_abstain x h e = cc (ap is_abstain e, h)

module _ {W : Type 0} ⦃num : Float W⦄ where
  rescaled :
      (u : String) (e q : ℕ) (legs : List (OptionLeg W))
      → IsCovered u e 1 legs
      → IsCovered u e q (map (λ (leg : OptionLeg W). record leg { quantity = q }) legs)
  rescaled u e q [] h = tt
  rescaled u e q (x ∷ []) h = absurd h
  rescaled u e q (x ∷ y ∷ legs) (c, h) = (
    record {
      sold = c.sold;
      bought = c.bought;
      type = c.type;
      short_underlying = c.short_underlying;
      long_underlying = c.long_underlying;
      short_expiration = c.short_expiration;
      long_expiration = c.long_expiration;
      short_quantity = refl;
      long_quantity = refl;
      caps = c.caps;
    },
    rescaled u e q legs h,
  )

  -- a scaled strategy is covered in its new size
  scale_strategy-IsCovered :
      (u : String) (e q : ℕ) (s : OptionStrategy W)
      → IsCovered u e 1 s.legs
      → IsCovered u e q (scale_strategy s q).legs
  unfolding scale_strategy
  scale_strategy-IsCovered u e q s h = elim (Bool-cases (q == 1)) [
    | inl t ↦ rw t (rw ((==_iff q 1).0 t) h)
    | inr t ↦ rw t (rescaled u e q s.legs h)
  ]

-- what is known once a strategy is built for a signal
record IsBacked {W : Type 0} ⦃num : Float W⦄ (config : AgentConfig W) (call : Call) (sg : Signal W)
    (expiration quantity : ℕ) (s : OptionStrategy W) : Type 0 where
  convincing : IsConvincing config sg
  covered : IsCovered (upper call.symbol) expiration quantity s.legs

module _ {W J H : Type 0} ⦃num : Float W⦄ ⦃hashing : Hashing (Payload W) H⦄ (config : AgentConfig W)
    (account : AccountSnapshot W) (services : Services W J) (call : Call) where
  abstained_with-Sends :
      (reason : String) (p : Payload W) (d : AgentDecision W) (w : World W H)
      → Sends config account call w (abstained_with config account services call reason p d w)
  unfolding abstained_with close_with
  abstained_with-Sends reason p d w = inl (refl, λ e. cc)

  -- after the answer of the broker there is a decision, with the strategy and the signal
  placed_decision :
      (s : OptionStrategy W) (d : AgentDecision W) (o : Outcome OptionOrderStatus) (w : World W H)
      → let r = placed config account services call s d o w in
        (r.0.orders ≡ w.orders)
        × ((x : AgentDecision W) × (r.1 ≡ returns x)
            × (x.strategy ≡ d.strategy)
            × (x.signal ≡ d.signal))
  unfolding placed close_with
  placed_decision s d (raises e) w = (refl, (_, refl, refl, refl))
  placed_decision s d (returns r) w = (refl, (_, refl, refl, refl))

  place-Sends :
      (s : OptionStrategy W) (d : AgentDecision W) (w : World W H)
      → IsAuthorized config account call d (order_of call s)
      → Sends config account call w (place config account services call s d w)
  unfolding place
  place-Sends s d w a =
      let (sent, (x, decided, strategy, signal)) = placed_decision s d _ _ in
      inr (
        order_of call s,
        x,
        sent,
        decided,
        record {
          strategy = a.strategy;
          chosen = strategy ∙ a.chosen;
          made = a.made;
          limits = a.limits;
          expiration = a.expiration;
          quantity = a.quantity;
          covered = a.covered;
          signal = a.signal;
          heard = signal ∙ a.heard;
          convincing = a.convincing;
          enabled = a.enabled;
        },
      )

  assess-Sends :
      (sg : Signal W) (rank : Option W) (s : OptionStrategy W) (d : AgentDecision W) (w : World W H)
      (e n : ℕ)
      → d.signal ≡ some sg
      → IsBacked config call sg e n s
      → Sends config account call w (assess config account services call sg rank s d w)
  unfolding assess gated emit close_with
  assess-Sends sg rank s d w e n k b =
      let risk = evaluate s (portfolio_of account) config.budget rank in
      elim (Bool-cases (passes risk.verdict)) [
        | inl p ↦ elim (Bool-cases (should_execute config call)) [
          | inl x ↦
              rw (p, x)
                (place-Sends s _ _ (record {
                  strategy = s;
                  chosen = refl;
                  made = refl;
                  limits = (passes_iff s (portfolio_of account) config.budget rank).0 p;
                  expiration = e;
                  quantity = n;
                  covered = b.covered;
                  signal = sg;
                  heard = k;
                  convincing = b.convincing;
                  enabled = x;
                }))
          | inr x ↦ rw (p, x) (inl (refl, λ e. cc))
        ]
        | inr p ↦ rw p (inl (refl, λ e. cc))
      ]

  sized-Sends :
      (sg : Signal W) (rank : Option W) (s : OptionStrategy W) (d : AgentDecision W) (q : Outcome ℕ)
      (w : World W H) (e : ℕ)
      → d.signal ≡ some sg
      → IsBacked config call sg e 1 s
      → Sends config account call w (sized config account services call sg rank s d q w)
  unfolding sized
  sized-Sends sg rank s d (raises x) w e k b = inl (refl, tt)
  sized-Sends sg rank s d (returns q) w e k b =
      assess-Sends sg rank (scale_strategy s q) d w e q k (record {
        convincing = b.convincing;
        covered = scale_strategy-IsCovered (upper call.symbol) e q s b.covered;
      })

  built-Sends :
      (sg : Signal W) (rank : Option W) (d : AgentDecision W)
      (o : Outcome (Option (OptionStrategy W))) (w : World W H) (e : ℕ)
      → d.signal ≡ some sg
      → ((s : OptionStrategy W) → o ≡ returns (some s) → IsBacked config call sg e 1 s)
      → Sends config account call w (built config account services call sg rank d o w)
  unfolding built
  built-Sends sg rank d (raises x) w e k b = inl (refl, tt)
  built-Sends sg rank d (returns none) w e k b = abstained_with-Sends _ _ d w
  built-Sends sg rank d (returns (some s)) w e k b =
      sized-Sends sg rank s d (size config account s) w e k (b s refl)

  module _ (laws : IsOrdered W) where
    priced-Sends :
        (context : MarketContext W) (sg : Signal W) (d : AgentDecision W)
        (chain : Option (OptionChain W)) (spot : Option W) (w : World W H)
        → d.signal ≡ some sg
        → IsConvincing config sg
        → Sends config account call w
            (priced config account services call context sg d chain spot w)
    unfolding priced
    priced-Sends context sg d (some chain) (some spot) w k c =
        built-Sends sg context.vol_rank d _ w chain.expiration k λ s h. record {
          convincing = c;
          covered =
              build_strategy-IsCovered laws (env_of call) (upper call.symbol) spot chain.expiration
                (value sg.direction) chain.calls chain.puts (num.decimal 30 2) 1 1 h;
        }
    priced-Sends context sg d none spot w k c = abstained_with-Sends _ _ d w
    priced-Sends context sg d (some chain) none w k c = abstained_with-Sends _ _ d w

    judged-Sends :
        (context : MarketContext W) (d : AgentDecision W) (sg : Option (Signal W)) (w : World W H)
        → d.signal ≡ sg
        → Sends config account call w (judged config account services call context d sg w)
    unfolding judged
    judged-Sends context d none w k = abstained_with-Sends _ _ d w
    judged-Sends context d (some sg) w k = elim (Bool-cases (is_abstain sg.direction)) [
      | inl a ↦ rw a (abstained_with-Sends _ _ d w)
      | inr a ↦ elim (Bool-cases (num.lt sg.confidence config.min_confidence)) [
        | inl l ↦ rw (a, l) (abstained_with-Sends _ _ d w)
        | inr l ↦
            rw (a, l)
              (priced-Sends context sg d context.chain context.spot w k
                (record { directed = not_abstain sg.direction a; confident = l }))
      ]
    ]

    heard-Sends :
        (context : MarketContext W) (v : Outcome (Option (Signal W))) (w : World W H)
        → Sends config account call w (heard config account services call context v w)
    unfolding heard
    heard-Sends context (raises e) w = inl (refl, tt)
    heard-Sends context (returns sg) w = judged-Sends context _ sg w refl

    seen-Sends :
        (o : Outcome (MarketContext W)) (w : World W H)
        → Sends config account call w (seen config account services call o w)
    unfolding seen emit emit_all close_with
    seen-Sends (raises e) w = inl (refl, λ h. cc)
    seen-Sends (returns context) w =
        let voice = signal services.gateway call.symbol context call.scenario in
        heard-Sends context voice.1 (emit_all voice.0 (emit (market_ready context) w))

    -- Under the laws of order, for every broker, history and model: a call of `decide` either sends
    -- no order, and then its decision is not `executed`, or sends one and returns a decision. The
    -- order is then that of the strategy that the decision records, whose short legs are all covered
    -- and which meets every hard limit of the budget; the signal that the decision records has a
    -- direction and at least the minimal confidence; and execution is enabled.
    pub decide-Sends :
        (w : World W H) → Sends config account call w (decide config account services call w)
    unfolding decide emit
    decide-Sends w = seen-Sends (market_context config services call.now call.symbol) _
