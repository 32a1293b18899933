-- ===== src/Llm.antt =====
-- agent/src/agent/llm/errors.py: what the calls of the model raise.
pub mod Client
pub mod Structured
pub mod Observability
use alph_e.Common.{String}

pub data LlmError : Type 0 where
  missing_api_key : LlmError
  -- the text of the exception
  structured_output_error : String → LlmError
  other_error : String → LlmError
