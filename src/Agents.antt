-- ===== src/Agents.antt =====
-- services/agents: the records of the audit trail and the emitters (services/agents/events.py), the
-- agents' lifecycle and roles (services/agents/base.py, services/agents/roles.py), and the pipeline
-- graph (services/agents/graph.py). The contracts stand in Permissions.
pub mod Events
pub mod Roles
pub mod Pipeline
mod Tests
