-- ===== src/Session.antt =====
-- src/SessionCoordinator.cpp: the session of the selected server profile. `Fifo` has the queues of
-- operations of the secure store.
pub mod Fifo
