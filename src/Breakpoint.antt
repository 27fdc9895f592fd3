-- ===== src/Breakpoint.antt =====
-- The conditions of breakpoints: Em68030/Core/ConditionEvaluator.h.
pub mod Text
pub mod Numbers
pub mod Values
pub mod Single
pub mod Evaluate
pub mod Splitting
pub mod Lengths
pub mod Members
pub mod Deciding
pub mod Reading
mod Tests
