-- ===== src/Extractor.antt =====
-- src/heron/analysis/extractor.py: the indicators that a message contains. The parts are in the children.
pub mod Defang
pub mod Refanging
pub mod Ipv4
pub mod Bytes
pub mod Refusals
pub mod Html
pub mod Links
pub mod Urls
pub mod Gathering
pub mod Capped
pub mod Tests
