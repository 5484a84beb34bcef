-- ===== src/Channels/Telegram.antt =====
-- `markdownToTelegramHTML` of pkg/channels/telegram.go: `Patterns` has the regular expressions,
-- `Markup` the conversion; `Codes` proves.
pub mod Patterns
pub mod Markup
pub mod Codes
mod Tests
