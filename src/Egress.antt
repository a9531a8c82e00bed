-- ===== src/Egress.antt =====
-- app/egress/pool.py: the proxy pool, its probes, scores, policy, selection and stored form.
pub mod Contracts
pub mod Probe
pub mod Quality
pub mod Scores
pub mod Exit
pub mod Config
pub mod Pool
pub mod Policy
pub mod Choice
pub mod Probing
pub mod Failures
pub mod RoundTrip
pub mod Accepted
mod Tests
