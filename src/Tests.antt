-- ===== src/Tests.antt =====
-- Runs of the definitions on concrete inputs, and the theorems applied at them.
mod Data
mod Pipeline
mod Stream
mod Policy
mod Texts
mod Services
mod ClassifierData
mod Classifier
mod Gateway
mod PolicyAdmin
mod Admin
mod Patterns
