-- ===== src/Policy.antt =====
-- internal/policy/evaluator.go: `Check` has the first loop over an inbound's users, `Device` the two
-- loops of the device limit, `Evaluate` the whole evaluation, `Drain` the membership filter of a
-- draining node and `Usage` the traffic that is not yet acknowledged. A time is its Unix seconds.
pub mod Check
pub mod Tightened
pub mod Device
pub mod Evaluate
pub mod Drain
pub mod Usage
mod Tests
