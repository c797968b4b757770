-- ===== src/Model.antt =====
-- src/model.rs: the kinds of files, the query language and the options of a search.
pub mod Text
pub mod Kind
pub mod Tokens
pub mod Filter
pub mod Options
