-- ===== src/Tests.antt =====
-- Concrete runs of the model and instances of its theorems.
pub mod ChallengerRuns
pub mod HashmailRuns
pub mod InterceptorRuns
pub mod DatabaseRuns
pub mod Macaroons
pub mod CaveatRuns
pub mod MintRuns
pub mod RequestRuns
pub mod TokenRuns
pub mod ProxyRuns
pub mod LimiterRuns
pub mod EtcdRuns
