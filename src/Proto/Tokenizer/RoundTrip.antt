-- ===== src/Proto/Tokenizer/RoundTrip.antt =====
-- Tokens of the ra_svn protocol, as `parse_one_value` reads them: numbers, words and strings.
pub mod Digits
pub mod Tokens
pub mod Strings
pub mod Words
pub mod Numbers
