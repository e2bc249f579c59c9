-- ===== src/Tests.antt =====
-- The properties at concrete inputs: a shop's vnet that a front end's namespace may join.
mod Fixtures
mod Resolving
mod Admitting
mod Policing
mod Exposing
mod Serving
mod Stamping
mod Waiting
mod Owning
mod Reaching
mod SystemVnets
