-- ===== src/Agents/Events.antt =====
-- services/agents/events.py: records, the registry of sinks, and the emitter that numbers the events
-- of a run. A sink is a parameter: what it answers, which may be an exception. The random id and the
-- time of a record come with the call.
pub mod Numbered
use Prim.Native.String.{String}
use agnostix_ai_quant_fund.Prelude.{ℕ, suc, Option, List, [], ◌∷◌, ◌++◌}
use agnostix_ai_quant_fund.Prelude.Text.{str_eq}
use agnostix_ai_quant_fund.Prelude.Outcome.{Outcome, returns, raises, ◌>>=◌}
use agnostix_ai_quant_fund.Prelude.Dicts.{assign}

-- a value of a payload: the run's id, a number, or what the agent put there
pub data Value (P : Type 0) : Type 0 where
  text : String → Value P
  number : ℕ → Value P
  other : P → Value P

-- the arguments of `emit`, with the id and the time that the record takes
pub record Emission (P : Type 0) : Type 0 where
  pub id : String
  pub timestamp : ℕ
  pub agent_id : String
  pub event_type : String
  pub payload : List (String × Value P)
  pub proposal_id : Option String

-- `AgentEventRecord`
abbrev pub AgentEventRecord : Type 0 → Type 0
AgentEventRecord P = Emission P

-- `EventSinkRegistry`: `_sinks` and `_memory`
pub record EventSinkRegistry (P : Type 0) : Type 0 where
  pub sinks : List (AgentEventRecord P → Outcome (Unit {0}))
  pub memory : List (AgentEventRecord P)

module _ {P : Type 0} where
  pub register :
      EventSinkRegistry P → (AgentEventRecord P → Outcome (Unit {0})) → EventSinkRegistry P
  register r sink = record r { sinks = r.sinks ++ (sink ∷ []) }

  -- the loop over the sinks; the first exception ends it
  deliver : AgentEventRecord P → List (AgentEventRecord P → Outcome (Unit {0})) → Outcome (Unit {0})
  deliver e [] = returns tt
  deliver e (sink ∷ sinks) = sink e >>= λ _. deliver e sinks

  -- `EventSinkRegistry.emit`, which `RegistryEmitter.emit` calls with the record of its arguments
  pub registry_emit :
      AgentEventRecord P → EventSinkRegistry P → EventSinkRegistry P × Outcome (Unit {0})
  registry_emit e r = (record r { memory = r.memory ++ (e ∷ []) }, deliver e r.sinks)

  pub snapshot : EventSinkRegistry P → List (AgentEventRecord P)
  snapshot r = r.memory

-- `CorrelatedEmitter` around an inner emitter with the state `S`
pub record CorrelatedEmitter (S : Type 0) : Type 0 where
  pub inner : S
  pub run_id : String
  pub key : String
  pub seq : ℕ

module _ {P : Type 0} where
  -- `{**payload, self._key: self._run_id, "seq": self._seq}`
  abbrev pub tag : String → String → ℕ → List (String × Value P) → List (String × Value P)
  tag key run_id seq payload =
      assign str_eq (assign str_eq payload key (text run_id)) "seq" (number seq)

module _ {P S : Type 0} where
  abbrev pub tagged : CorrelatedEmitter S → Emission P → Emission P
  tagged c e = record e { payload = tag c.key c.run_id (suc c.seq) e.payload }

module _ {P S : Type 0} (inner_emit : Emission P → S → S × Outcome (Unit {0})) where
  -- `CorrelatedEmitter.emit`: the number is taken before the inner emitter answers
  pub correlated_emit : Emission P → CorrelatedEmitter S → CorrelatedEmitter S × Outcome (Unit {0})
  correlated_emit e c =
      let answer = inner_emit (tagged c e) c.inner in
      (record c { inner = answer.0; seq = suc c.seq }, answer.1)

  -- a sequence of calls, whether they return or raise
  pub correlated_emits : List (Emission P) → CorrelatedEmitter S → CorrelatedEmitter S
  correlated_emits [] c = c
  correlated_emits (e ∷ es) c = correlated_emits es (correlated_emit e c).0
