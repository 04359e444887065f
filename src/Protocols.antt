-- ===== src/Protocols.antt =====
-- packages/protocols: the events of a run as the user interface reads them.
pub mod AgUi
mod Tests
