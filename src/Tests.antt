-- ===== src/Tests.antt =====
-- Runs of the modelled code, and the theorems at concrete inputs.
mod Codecs
mod Flows
mod Managed
mod Packets
mod Payloads
mod Toy
mod Crypto
mod Keys
mod Receivers
mod Onions
mod Records
