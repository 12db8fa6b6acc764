-- ===== src/Tests.antt =====
-- Runs of the model at fixed inputs, and the theorems at inputs that meet their hypotheses.
mod Strings
mod Routes
mod Dispatch
mod Csrf
mod Builder
mod Servers
mod Starting
mod Query
mod Values
mod Workers
mod Main
