-- ===== src/Adapters.antt =====
-- The synthetic integrations of app/services/company_os_synthetic_adapters.py: the world of a
-- sandbox run and what is done to it. A world is passed on by hand, also past an exception; a dict
-- with keys that are texts or pairs is a list of its items. What is copied in Python
-- (`deepcopy`) is a value here, and the dicts of a world's tables are taken to be apart.
pub mod Tables
pub mod World
pub mod Execute
pub mod Guarded
pub mod Steps
pub mod Later
pub mod Replay
pub mod Inbound
pub mod OptOut
pub mod Accounts
pub mod Governed
