-- ===== src/Tests.antt =====
-- Concrete inputs for the theorems of the other modules.
mod World
mod Cataloger
mod Directories
mod Resolving
mod Patching
mod Schedule
mod Tasks
mod Serving
mod Starting
mod Lifecycle
mod Invoicing
mod Polling
mod Walking
mod Flying
