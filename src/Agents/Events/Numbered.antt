-- ===== src/Agents/Events/Numbered.antt =====
-- The numbering of the events of a run (services/agents/events.py) in the registry's memory.
use Prim.Native.String.{String}
use agnostix_ai_quant_fund.Prelude.{
  ℕ, suc, ◌≡◌, refl, sym, ◌∙◌, false, some, List, [], ◌∷◌, ◌++◌, append_assoc, append-nil,
}
use agnostix_ai_quant_fund.Prelude.Text.{str_eq, eq_iff}
use agnostix_ai_quant_fund.Prelude.Dicts.{Decides, lookup, lookup-assign_same, lookup-assign_other}
use agnostix_ai_quant_fund.Agents.Events.{
  Value, text, number, Emission, EventSinkRegistry, registry_emit, CorrelatedEmitter, tag, tagged,
  correlated_emit, correlated_emits,
}

-- the records are the events in their order, numbered from `n` on, each with the id of the run
abbrev pub AreNumbered :
    {P : Type 0} → String → String → ℕ → List (Emission P) → List (Emission P) → Type 0
AreNumbered key run_id n [] [] = Unit
AreNumbered key run_id n (e ∷ es) (r ∷ rs) =
    (r.agent_id ≡ e.agent_id)
    × (r.event_type ≡ e.event_type)
    × (lookup str_eq r.payload "seq" ≡ some (number n))
    × (lookup str_eq r.payload key ≡ some (text run_id))
    × AreNumbered key run_id (suc n) es rs
AreNumbered key run_id n _ _ = ⊥

str_eq-Decides : Decides str_eq
str_eq-Decides a b = eq_iff a b

lookup-tag :
    {P : Type 0} (key run_id : String) (n : ℕ) (payload : List (String × Value P))
    → str_eq "seq" key ≡ false
    → (lookup str_eq (tag key run_id n payload) "seq" ≡ some (number n))
      × (lookup str_eq (tag key run_id n payload) key ≡ some (text run_id))
lookup-tag key run_id n payload apart = (
  lookup-assign_same str_eq _ "seq" (number n) str_eq-Decides,
  lookup-assign_other str_eq _ "seq" key (number n) str_eq-Decides apart
      ∙ lookup-assign_same str_eq payload key (text run_id) str_eq-Decides,
)

module _ {P : Type 0} where
  abbrev records : CorrelatedEmitter (EventSinkRegistry P) → List (Emission P)
  records c = c.inner.memory

  -- Around a registry, whatever its sinks answer: a sequence of calls appends one record for each call
  -- in order, numbered from the next number of the emitter without a gap, with the id of its run in
  -- place of what the agent's payload says, if the key of the id is not `seq`.
  pub correlated_emits-AreNumbered :
      (c : CorrelatedEmitter (EventSinkRegistry P)) (es : List (Emission P))
      → str_eq "seq" c.key ≡ false
      → (rs : List (Emission P)) × ((correlated_emits registry_emit es c).inner.memory
          ≡ c.inner.memory ++ rs)
        × AreNumbered c.key c.run_id (suc c.seq) es rs
  unfolding correlated_emits correlated_emit registry_emit
  correlated_emits-AreNumbered c [] apart = ([], sym (append-nil _), tt)
  correlated_emits-AreNumbered c (e ∷ es) apart =
      let (rs, same, numbered) =
        correlated_emits-AreNumbered (correlated_emit registry_emit e c).0 es apart in
      let r = tagged c e in
      let (a, b) = lookup-tag c.key c.run_id (suc c.seq) e.payload apart in
      (r ∷ rs, same ∙ append_assoc c.inner.memory (r ∷ []) rs, (refl, refl, a, b, numbered))
