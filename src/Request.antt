-- ===== src/Request.antt =====
-- src/Executor.hpp: tensors, execution requests and execution responses.
-- An `int64_t` dimension is its 64-bit pattern, so that the casts between it and `size_t` change
-- nothing. A `double` is its IEEE 754 bit pattern. A cancel token (a shared atomic flag) and a
-- streaming callback are named by numbers.
use neuriplo_kserve_runtime.Prelude.{ℕ, String, Bool, true, List, [], Option, none, str_eq}
use neuriplo_kserve_runtime.Tensor.{tensor_element_count}

pub record InputTensor : Type 0 where
  pub name : String
  pub datatype : String
  pub shape : List ℕ
  pub bytes : List ℕ
  pub string_data : List String

pub record OutputTensor : Type 0 where
  pub name : String
  pub datatype : String
  pub shape : List ℕ
  pub bytes : List ℕ
  pub string_data : List String

unfoldable pub is_bytes_datatype : String → Bool
is_bytes_datatype datatype = str_eq datatype "BYTES"

pub element_count : InputTensor → ℕ
element_count t = tensor_element_count t.datatype t.bytes

pub record LlmGenerationParams : Type 0 where
  pub max_tokens : Option ℕ
  pub temperature : Option ℕ
  pub top_p : Option ℕ
  pub top_k : Option ℕ
  pub streaming : Bool

pub record LlmResultMetadata : Type 0 where
  pub prompt_tokens : ℕ
  pub completion_tokens : ℕ
  pub finish_reason : String

pub record ExecutionRequest : Type 0 where
  pub id : Option String
  pub inputs : List InputTensor
  pub requested_outputs : List String
  pub llm_params : Option LlmGenerationParams
  pub cancel_token : Option ℕ
  pub streaming_callback : Option ℕ

pub record ExecutionResponse : Type 0 where
  pub ok : Bool
  pub error_code : String
  pub error_message : String
  pub outputs : List OutputTensor
  pub llm_metadata : Option LlmResultMetadata

-- A response as it is default-constructed.
abbrev pub empty_response : ExecutionResponse
empty_response = record {
  ok = true;
  error_code = "";
  error_message = "";
  outputs = [];
  llm_metadata = none;
}

-- A request as it is default-constructed.
abbrev pub empty_request : ExecutionRequest
empty_request = record {
  id = none;
  inputs = [];
  requested_outputs = [];
  llm_params = none;
  cancel_token = none;
  streaming_callback = none;
}
