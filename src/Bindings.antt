-- ===== src/Bindings.antt =====
-- Bindings of apps to resources: services/control-plane/src/modules/bindings.
pub mod Binding
pub mod EnvVars
