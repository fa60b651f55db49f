-- ===== src/YzjCli.antt =====
-- internal/yzjcli: the client of the command line tool, its messages, the polling cursors and the
-- watcher that polls one group.
pub mod Errors
pub mod State
pub mod Message
pub mod Watcher
pub mod Gather
pub mod Catchup
pub mod Poll
pub mod Delivery
pub mod Throttle
pub mod Rounds
pub mod Login
pub mod Examples
