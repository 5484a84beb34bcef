-- ===== src/Auth.antt =====
-- pkg/auth/store.go: the file of credentials. `Store` has the operations; `Laws` proves.
pub mod Store
pub mod Laws
mod Tests
