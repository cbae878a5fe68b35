-- ===== src/Registry/Registration.antt =====
-- src/method.rs: what a registration changes of the lookups, of names with and without a version.
use nerw_rpc.Prelude.Text.{Text}
