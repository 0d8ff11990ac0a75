-- ===== src/ParserPipeline.antt =====
-- crates/parser-pipeline: the scratch space in which the parser leaves its events, and the tree
-- of a page.
pub mod Scratch
pub mod Dom
