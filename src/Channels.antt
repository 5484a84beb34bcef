-- ===== src/Channels.antt =====
-- pkg/channels: `Base` has what all channels share, `Manager` the registered channels, `Telegram` and
-- `Slack` the code of these platforms; `Gate` and `Delivery` prove.
pub mod Base
pub mod Manager
pub mod Telegram
pub mod Slack
pub mod Gate
pub mod Delivery
mod Tests
