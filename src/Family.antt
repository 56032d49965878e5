-- ===== src/Family.antt =====
-- internal/queryfamily: the clustering of exact normalized-query groups into families.
pub mod Tokens
pub mod Tables
pub mod Features
pub mod Similarity
pub mod Preview
pub mod Stats
pub mod Rollup
