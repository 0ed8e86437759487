-- ===== src/Search.antt =====
-- internal/search/search.go: the query language of transactions, from the text to the match.
pub mod Outcome
pub mod Lexer
pub mod Parser
pub mod Std
pub mod Values
pub mod Preds
pub mod Query
