-- ===== src/Trading/Desk/Ledger.antt =====
-- The journal of a desk (services/trading/desk.py) over every sequence of commands, and what a
-- desk does while its kill switch is engaged.
use agnostix_ai_quant_fund.Prelude.{
  ◌≡◌, ◌≢◌, refl, sym, ap, subst, true, List, [], ◌∷◌, All, ℕ, zero, suc, ◌++◌, append-nil,
  append_assoc, ◌∙◌,
}
use agnostix_ai_quant_fund.Prelude.Outcome.{returns, raises}
use agnostix_ai_quant_fund.Number.{Float}
use agnostix_ai_quant_fund.Trading.Journal.{Hashing}
use agnostix_ai_quant_fund.Trading.Journal.Chain.{ReadsEquality, IsSound}
use agnostix_ai_quant_fund.Trading.Agent.{AgentConfig, Payload, kill_switch_event}
use agnostix_ai_quant_fund.Trading.Agent.Order.{Handled}
use agnostix_ai_quant_fund.Trading.Agent.Decide.{decide}
use agnostix_ai_quant_fund.Trading.Agent.Decide.Recorded.{decide-IsSound}
use agnostix_ai_quant_fund.Trading.Desk.{
  TradingDesk, Command, trigger_kill, resume, mark_closed, visit, dict_pop, with_book,
  record_decision, noted, step, run, Switch, switch, switched,
}
use agnostix_ai_quant_fund.Trading.Desk.Cases.{visit_cases, decide_killed}

-- the number of uses of the kill switch among the commands
abbrev pub kills : {W J : Type 0} → List (Command W J) → ℕ
kills [] = 0
kills (switch trigger_kill ∷ cs) = suc (kills cs)
kills (_ ∷ cs) = kills cs

abbrev pub repeated : {A : Type 0} → ℕ → A → List A
repeated zero a = []
repeated (suc n) a = a ∷ repeated n a

-- the desk `after` has done nothing since `before` but emit that it is killed, `n` times, and its kill
-- switch is engaged
abbrev pub IsHalted : {W H : Type 0} → ℕ → TradingDesk W H → TradingDesk W H → Type 0
IsHalted n before after =
    (after.world
      ≡ record before.world { events = before.world.events ++ repeated n (kill_switch_event true) })
    × (after.last_decisions ≡ before.last_decisions)
    × (after.kill_switch ≡ true)

module _ {W H : Type 0} ⦃num : Float W⦄ ⦃hashing : Hashing (Payload W) H⦄ where
  noted_journal :
      (desk : TradingDesk W H) (r : Handled W H) → (noted desk r).0.world.journal ≡ r.0.journal
  unfolding noted record_decision
  noted_journal desk (w, raises e) = refl
  noted_journal desk (w, returns d) = refl

  abbrev pub HasSoundJournal : TradingDesk W H → Type 0
  HasSoundJournal desk = IsSound desk.world.journal

  switched-HasSoundJournal :
      (ss : List Switch) (desk : TradingDesk W H)
      → HasSoundJournal desk
      → HasSoundJournal (switched ss desk)
  unfolding switched
  switched-HasSoundJournal ss desk h = h

module _ {W H : Type 0} where
  killed_more :
      (n : ℕ) (desk after : TradingDesk W H)
      → IsHalted n (switched (trigger_kill ∷ []) desk) after
      → IsHalted (suc n) desk after
  unfolding switched
  killed_more n desk after (w, d, k) = (
    w
        ∙ ap (λ es. record desk.world { events = es })
            (append_assoc desk.world.events (kill_switch_event true ∷ [])
              (repeated n (kill_switch_event true))),
    d,
    k,
  )

module _ {W J H : Type 0} ⦃num : Float W⦄ ⦃hashing : Hashing (Payload W) H⦄
    (config : AgentConfig W) where
  step-HasSoundJournal :
      ReadsEquality (Payload W) H
      → (c : Command W J) (desk : TradingDesk W H) → HasSoundJournal desk
      → HasSoundJournal (step config c desk)
  unfolding step
  step-HasSoundJournal reads (switch s) desk h = switched-HasSoundJournal (s ∷ []) desk h
  step-HasSoundJournal reads (mark_closed id) desk h = h
  step-HasSoundJournal reads (visit v) desk h =
      let next = switched v.meanwhile desk in
      let sound = switched-HasSoundJournal v.meanwhile desk h in
      visit_cases config HasSoundJournal desk v h sound λ base _.
        rw (noted_journal next (decide config (with_book desk base) v.services v.call next.world))
          (decide-IsSound config (with_book desk base) v.services v.call reads next.world sound)

  -- Where `eqb` decides equality: the journal of a desk stays sound in every run.
  pub run-IsSound :
      ReadsEquality (Payload W) H
      → (cs : List (Command W J)) (desk : TradingDesk W H) → IsSound desk.world.journal
      → IsSound (run config cs desk).world.journal
  unfolding run
  run-IsSound reads [] desk h = h
  run-IsSound reads (c ∷ cs) desk h =
      run-IsSound reads cs (step config c desk) (step-HasSoundJournal reads c desk h)

  -- What a desk does while its kill switch is engaged and nobody resumes it: nothing. The journal, the
  -- orders and the list of decisions stay, the switch stays engaged, and the only events are those of
  -- further uses of the kill switch, one for each.
  pub run-IsHalted :
      (cs : List (Command W J)) (desk : TradingDesk W H)
      → All (λ c. c ≢ switch resume) cs
      → desk.kill_switch ≡ true
      → IsHalted (kills cs) desk (run config cs desk)
  unfolding run step switched
  run-IsHalted [] desk h k =
      (ap (λ es. record desk.world { events = es }) (sym (append-nil desk.world.events)), refl, k)
  run-IsHalted (switch trigger_kill ∷ cs) desk (_, h) k =
      killed_more (kills cs) desk (run config cs (switched (trigger_kill ∷ []) desk))
        (run-IsHalted cs (switched (trigger_kill ∷ []) desk) h refl)
  run-IsHalted (switch resume ∷ cs) desk (n, h) k = absurd (n refl)
  run-IsHalted (mark_closed id ∷ cs) desk (_, h) k =
      run-IsHalted cs (record desk { open_book = dict_pop desk.open_book id }) h k
  run-IsHalted (visit v ∷ cs) desk (_, h) k =
      subst (λ next. IsHalted (kills cs) desk (run config cs next))
        (sym (ap (λ r. r.0) (decide_killed config desk v k))) (run-IsHalted cs desk h k)
