-- ===== src/Access.antt =====
-- Who a request speaks for (src/config/validation.rs, src/auth/api_secret.rs, src/auth/extractor.rs and
-- src/middleware/auth.rs).
pub mod Secrets
pub mod Middleware
mod Tests
use sayna.Prelude.{List}
use sayna.Prelude.Text.{Text}

pub record AuthApiSecret : Type 0 where
  pub id : Text
  pub secret : Text
