-- ===== src/Tests.antt =====
-- Concrete runs of the model.
mod Samples
mod Policies
mod Runs
mod Positions
mod Cash
mod Intake
mod Treasury
