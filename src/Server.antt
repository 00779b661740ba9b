-- ===== src/Server.antt =====
-- The message handlers (x/vote/keeper/msg_server*.go). A handler returns its outcome with the store
-- as it left it; responses, events and log lines are not modelled.
pub mod Voting
pub mod Tally
pub mod Ceremony
pub mod Registry
pub mod Contribute
pub mod Decrypt
pub mod Sessions
pub mod Coordinator
pub mod Deliver
