-- ===== src/Lib.antt =====
-- Verification of the decision core of Agnostix, a platform for options trading on paper.
--
-- An agent (services/trading/agent.py) lets a language model propose a direction; deterministic code
-- builds a strategy of options whose loss is bounded, sizes it, and asks the risk engine; only then
-- may an order go to the broker. Every decision is written to a journal. The desk
-- (services/trading/desk.py) owns the agent, the book of open strategies and the kill switch. This
-- library models the deterministic part, and takes the answers of the rest as parameters.
--
-- Parts, by file of the library and file of the repository:
--   Number      Python's float as an interface (Float): operations without laws, so that NaN and
--               rounding are not excluded. Number/Order has the laws that theorems take as
--               hypotheses, all of which hold of IEEE doubles away from NaN and overflow, and
--               Number/Micro a concrete instance, whole millionths, in which tests run.
--   Options     services/options/schemas.py. Options/Quotes, Options/Strategies: the builders of
--               services/options/strategies.py. Options/Pricing: services/options/pricing.py.
--               Options/Iv: services/options/iv.py. Options/Market: services/options/market.py.
--   Risk        services/risk/engine.py.
--   Trading     services/trading/schemas.py. Trading/Journal: the hash chain of
--               services/trading/journal.py over an abstract digest. Trading/Agent: decide of
--               services/trading/agent.py as one handler from the market context to the order. Its
--               broker, history and model are parameters whose calls may raise; what outlives a call
--               is a World of the journal, the events and the orders sent. Trading/Agent/Cycle: its
--               passes over a watchlist. Trading/Desk: the kill switch, the book and the cycles of
--               services/trading/desk.py, driven by commands.
--   Agents      services/agents/events.py, base.py, roles.py and graph.py: emitters, the classes of
--               agents, and the graph of the pipeline.
--   Fundamentals services/fundamentals/schemas.py. Fundamentals/Metrics: metrics.py.
--               Fundamentals/Validation: validation.py. Fundamentals/Context: the records of
--               context.py, what it selects (Selected) and its builder (Builder), with the order in
--               which Python lists a set of dates and the digest as parameters.
--               Fundamentals/Research: research/schemas.py, grounding.py (Numbers, Grounding),
--               critic.py (Critic), agent.py (Analyst) and evaluation.py (Evaluation); the models,
--               the validation of what they answer and the rendered context are parameters.
--   Permissions services/execution/mcp_boundary.py and services/agents/contracts.py.
--   Gateway     services/model_gateway/gateway.py and schemas.py: routing, a call and its telemetry,
--               over adapters that are parameters. Gateway/Retry: the retry loop of
--               services/model_gateway/providers/openrouter.py.
--   MarketData  services/market_data/schemas.py. MarketData/Freshness: freshness.py.
--               MarketData/Validation: validation.py. MarketData/Cache: cache.py, over a server of
--               Redis and `json` as parameters. MarketData/Snapshot: snapshot.py, over the queries of
--               its repositories (Builder) and the projections for the research (Summary).
--   Api         apps/api/app/core/auth.py (Auth): tokens and roles. Api/Providers: the management of
--               providers, with the schemas and rows of schemas/provider_management.py and
--               db/models.py, the metadata and the service of services/provider_management.py
--               (Metadata, Service), the secrets of core/secrets.py (Secrets) and the queries of
--               db/repositories/provider_repo.py (Store). Service/Routes: api/routes/providers.py with
--               the commit of db/session.py. A request is a function of the tables of the database.
--   Prelude     lists, tests, integers, text and outcomes that the parts share. An Outcome is what a
--               Python function gives: a value that it returns, or the name of what it raises.
--
-- Names are those of the source without leading underscores. Times are microseconds since the epoch.
-- Strings that are only read by people (detail, notes, reason) are left out or cut to their kind.
-- The clock and the digits of uuid4 are read once for a call, as Env and Call. An emitter is taken
-- to return. A kill that comes while a decision awaits the broker acts on the next decision, as in the
-- code, which does not look at the switch again, and ends a cycle before its next symbol. The loop of
-- implied_volatility runs on the fuel of the source, _IV_MAX_ITER = 200 rounds, after which the code
-- returns too, so the fuel is no bound of the model. The retry loop recurs on the retries left.
--
-- Not modelled: the other HTTP routes, the workers, the other queries of the database, the web
-- application and the clients of providers, which are input and output; and, so far, the text of the
-- research context.
pub mod Prelude
pub mod Number
pub mod Options
pub mod Risk
pub mod Trading
pub mod Agents
pub mod Api
pub mod Fundamentals
pub mod Permissions
pub mod Gateway
pub mod MarketData
