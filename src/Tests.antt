-- ===== src/Tests.antt =====
-- Runs on concrete data, with the instances of the theorems.
mod Data
mod Sni
mod Certs
mod Proxy
mod Conn
mod PortGroups
mod Crypto
mod Rules
mod Settings
mod Certificates
mod Jobs
mod Backup
mod Ddns
mod System
mod Cli
mod Password
mod Panel
mod Static
mod Diagnosis
