-- ===== src/Compat.antt =====
-- internal/compat: the requests of the two APIs, in a common form.
pub mod Types
pub mod Prompt
pub mod Images
pub mod Content
pub mod OpenAi
pub mod Claude
pub mod Responses
