-- ===== src/Tests.antt =====
-- Runs of the definitions on concrete inputs, and the theorems at such inputs.
pub mod BigNumRuns
pub mod HashMapRuns
pub mod ByteCodeRuns
pub mod MstrRuns
pub mod CacheRuns
pub mod LexerRuns
pub mod ArrayRuns
pub mod GcRuns
pub mod GcListRuns
