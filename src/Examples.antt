-- ===== src/Examples.antt =====
-- Runs of the modelled code on concrete inputs, and the theorems at such inputs.
mod Versions
mod Clusters
mod Upgrades
mod Backups
mod Handling
mod Pods
mod Storage
mod Configs
mod Controllers
mod Startup
mod Scaling
mod Serving
