-- ===== src/Pipeline.antt =====
-- src/PipelineConfig.cpp, src/PipelineExecutor.cpp and src/PipelineEnvelope.cpp: pipelines, which run the steps of a graph.
pub mod Config
pub mod Executor
pub mod Build
pub mod Envelope
mod Examples
