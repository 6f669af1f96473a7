-- ===== src/Rag.antt =====
-- The retrieval behind the answers: libs/rag. Normalizer has the text normalizer, Store the knowledge
-- base and Router the choice of the level of an answer.
pub mod Normalizer
pub mod CodePoints
pub mod Normal
pub mod Tokens
pub mod Store
pub mod Ids
pub mod Router
pub mod Levels
mod Occurs
mod Tests
