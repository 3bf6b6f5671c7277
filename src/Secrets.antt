-- ===== src/Secrets.antt =====
-- provider/config_io/secret_handler.py: secret writes to the configuration.
pub mod Gate
mod Tests
