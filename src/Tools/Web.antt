-- ===== src/Tools/Web.antt =====
-- pkg/tools/web.go: the tools that search the web and fetch a page. `Search` and `Fetch` have the
-- tools, `Text` the text of a page; `Limits` proves.
pub mod Text
pub mod Search
pub mod Fetch
pub mod Limits
mod Tests
