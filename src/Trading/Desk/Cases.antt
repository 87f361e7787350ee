-- ===== src/Trading/Desk/Cases.antt =====
-- A visit of a desk (services/trading/desk.py) leaves it alone or lets the agent decide.
use agnostix_ai_quant_fund.Prelude.{refl, if_cases, ◌≡◌, true, false}
use agnostix_ai_quant_fund.Prelude.Outcome.{Outcome, returns, raises}
use agnostix_ai_quant_fund.Number.{Float}
use agnostix_ai_quant_fund.Trading.Journal.{Hashing}
use agnostix_ai_quant_fund.Trading.Agent.{AccountSnapshot, AgentConfig, Payload}
use agnostix_ai_quant_fund.Trading.Agent.Decide.{decide}
use agnostix_ai_quant_fund.Trading.Desk.{
  TradingDesk, Visit, with_book, account_snapshot, killed, switched, noted, asked, desk_decide,
}

module _ {W J H : Type 0} ⦃num : Float W⦄ ⦃hashing : Hashing (Payload W) H⦄
    (config : AgentConfig W) where
  -- what holds where nothing happens and where the agent decides holds after a visit
  pub asked_cases {ℓ} :
      (P : TradingDesk W H → Type ℓ) (desk : TradingDesk W H) (v : Visit W J)
      (o : Outcome (AccountSnapshot W))
      → P (switched v.meanwhile desk)
      → ((base : AccountSnapshot W)
          → o ≡ returns base
          → P
              (noted (switched v.meanwhile desk) (
                decide config
                  (with_book desk base)
                  v.services
                  v.call
                  (switched v.meanwhile desk).world)).0)
      → P (asked config (switched v.meanwhile desk) v (account_snapshot desk o)).0
  unfolding asked account_snapshot
  asked_cases P desk v (raises e) idle done = idle
  asked_cases P desk v (returns base) idle done = done base refl

  pub visit_cases {ℓ} :
      (P : TradingDesk W H → Type ℓ) (desk : TradingDesk W H) (v : Visit W J)
      → P desk
      → P (switched v.meanwhile desk)
      → ((base : AccountSnapshot W)
          → v.account ≡ returns base
          → P
              (noted (switched v.meanwhile desk) (
                decide config
                  (with_book desk base)
                  v.services
                  v.call
                  (switched v.meanwhile desk).world)).0)
      → P (desk_decide config desk v).0
  unfolding desk_decide
  visit_cases P desk v idle flipped done =
      if_cases (λ r. P r.0) desk.kill_switch (desk, returns (killed desk v.call))
        (asked config (switched v.meanwhile desk) v (account_snapshot desk v.account)) idle
        (asked_cases P desk v v.account flipped done)

  -- a visit with the kill switch engaged, and without
  pub decide_killed :
      (desk : TradingDesk W H) (v : Visit W J)
      → desk.kill_switch ≡ true
      → desk_decide config desk v ≡ (desk, returns (killed desk v.call))
  unfolding desk_decide
  decide_killed desk v k = rw k refl

  pub decide_asked :
      (desk : TradingDesk W H) (v : Visit W J)
      → desk.kill_switch ≡ false
      → desk_decide config desk v
        ≡ asked config (switched v.meanwhile desk) v (account_snapshot desk v.account)
  unfolding desk_decide
  decide_asked desk v k = rw k refl
