-- ===== src/Tests.antt =====
-- Runs of the modelled code on concrete inputs, and the theorems at inputs that meet their
-- hypotheses.
mod Data
mod Queue
mod Waits
mod Commands
mod Operations
mod Restart
mod Routes
mod Incidents
mod Doctor
mod Editor
mod Choices
mod Plans
