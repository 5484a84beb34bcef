-- ===== src/Utils.antt =====
-- pkg/utils: `Runes` has Go's conversion between strings and runes, `Truncate` the one function of
-- string.go, `Media` the names of files of media.go.
pub mod Runes
pub mod Truncate
pub mod Media
mod Tests
