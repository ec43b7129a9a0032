-- ===== src/Execution.antt =====
-- src/execution.rs: the requests that the gateway can carry out, and their `PartialEq`.
pub mod Equality
use zyguor_agent_execution_g.Base.{ℕ, String, Option}

-- An `i32` is its bit pattern, a number below 2^32.
pub record AddArguments : Type 0 where
  pub left : ℕ
  pub right : ℕ

pub record ReadFileArguments : Type 0 where
  pub path : String

pub record WriteFileArguments : Type 0 where
  pub path : String
  pub content : String

pub data HttpMethod : Type 0 where
  get post : HttpMethod

pub record HttpRequestArguments : Type 0 where
  pub method : HttpMethod
  pub url : String
  pub body : Option String

pub data ExecutionRequest : Type 0 where
  add : AddArguments → ExecutionRequest
  read_file : ReadFileArguments → ExecutionRequest
  write_file : WriteFileArguments → ExecutionRequest
  git_status run_cargo_test : ExecutionRequest
  http_request : HttpRequestArguments → ExecutionRequest
