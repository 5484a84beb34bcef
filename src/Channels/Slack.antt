-- ===== src/Channels/Slack.antt =====
-- pkg/channels/slack.go: `Client` has the messages in both directions; `Reply` proves.
pub mod Client
pub mod Reply
mod Tests
