-- ===== src/Tests.antt =====
-- Runs of the definitions on concrete inputs, and a JSON document that has the laws of Json.
mod Document
mod Texts
mod Sockets
mod Processes
mod Services
mod Managers
mod Values
mod Logs
mod Threads
mod Servers
mod Templates
mod Plugins
mod Plain
mod Plugged
mod Units
mod Routes
mod Scripts
mod Everything
