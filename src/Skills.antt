-- ===== src/Skills.antt =====
-- pkg/skills/loader.go: skills, which are directories with a SKILL.md. `Text` has what is made of the
-- text of such a file, `Loader` the listing and the loading; the other children prove.
pub mod Text
pub mod Loader
pub mod Escape
pub mod Front
pub mod Listing
pub mod Agreement
mod Tests
