-- ===== src/Auth.antt =====
-- src/auth.rs: who a request comes from. Tokens, logins and tickets are in child modules.
pub mod Compare
pub mod Tokens
pub mod Sessions
pub mod Samples
pub mod Login
pub mod Throttle
pub mod Counters
pub mod Tickets
pub mod SingleUse
pub mod Refresh
mod Tests
mod RefreshTests
use rockbase.Prelude.{Text}

pub data Who : Type 0 where
  admin : Who
  user : Text → Text → Who
  guest : Who
