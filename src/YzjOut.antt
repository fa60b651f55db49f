-- ===== src/YzjOut.antt =====
-- internal/yzjout/yzjout.go: the messages to the robot, their sending, and the texts of the replies.
-- A text is counted in characters, as the source counts its runes.
pub mod Send
pub mod Reflow
pub mod Collapse
pub mod Roots
pub mod Replies
pub mod Examples
