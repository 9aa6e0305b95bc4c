-- ===== src/Tests.antt =====
-- Runs of the development on small hosts, releases and pods.
mod Hosts
mod States
mod Logs
mod Scripts
mod Serving
mod Served
mod Runs
mod Locking
mod Reports
mod Scrapes
mod Collected
mod Texts
mod Sentences
