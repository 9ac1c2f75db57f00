-- ===== src/Text.antt =====
-- Include/util/string.hpp.
pub mod Search
pub mod Base64
pub mod Url
pub mod Edit
