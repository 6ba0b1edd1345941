-- ===== src/Agent.antt =====
-- The Company OS decision mode of the agents: `run_company_os_decision` and what it calls, of
-- app/agents/base_agent.py.
pub mod Prompt
pub mod Provider
pub mod Decision
