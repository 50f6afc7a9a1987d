-- ===== src/Llm.antt =====
-- src/LlmScheduler.cpp: what a request for generation must satisfy (Admission), how it enters the
-- queue (Submit), the decode slots (Slots), what a worker does (Process, Worker); src/Tokenizer.hpp: how many
-- tokens a text has (Tokens).
pub mod Admission
pub mod Submit
pub mod Slots
pub mod Inference
pub mod Process
pub mod Worker
pub mod Tokens
mod Examples
