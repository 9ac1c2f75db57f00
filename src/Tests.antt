-- ===== src/Tests.antt =====
-- Runs of the models on small inputs, and the theorems at concrete values.
mod Text
mod Package
mod Queue
mod Task
mod Server
mod Json
mod Edit
mod Http
mod Service
mod Timer
mod Net
mod Reconnect
mod Boost
mod Session
mod Address
mod Database
mod Serial
mod Config
mod Models
