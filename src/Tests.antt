-- ===== src/Tests.antt =====
-- Runs of the model on small inputs. The children are named for the parts that they run.
pub mod Samples
pub mod Guards
pub mod Grants
pub mod Limits
pub mod SignIns
pub mod Requests
pub mod Tokens
pub mod Rounds
pub mod Desks
pub mod SignOns
