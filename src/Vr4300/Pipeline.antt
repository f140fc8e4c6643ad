-- ===== src/Vr4300/Pipeline.antt =====
-- vr4300/pipeline.c and vr4300/cpu.c: the stages of the pipeline and its cycle. A cycle that ends in
-- `abort()`, or in what C leaves undefined, is `none`.
pub mod Fetch
pub mod Execute
pub mod DataStage
pub mod Cycle
pub mod Stalls
pub mod Forwarding
