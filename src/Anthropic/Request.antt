-- ===== src/Anthropic/Request.antt =====
-- src/anthropic/types.rs: the request of the Messages API, with the fields that the prompt cache reads.
-- The fields of a schema stand in the order of their keys.
use kiro_rs_tool.Prelude.{ℕ, Option, List}
use kiro_rs_tool.Anthropic.Json.{Json, Fields}

pub record CacheControl : Type 0 where
  pub ttl : Option (List ℕ)

pub record Tool : Type 0 where
  pub name : List ℕ
  pub description : List ℕ
  pub input_schema : Fields
  pub cache_control : Option CacheControl

pub record SystemMessage : Type 0 where
  pub text : List ℕ
  pub cache_control : Option CacheControl

pub record Message : Type 0 where
  pub role : List ℕ
  pub content : Json

pub record Metadata : Type 0 where
  pub user_id : Option (List ℕ)

pub record MessagesRequest : Type 0 where
  pub messages : List Message
  pub system : Option (List SystemMessage)
  pub tools : Option (List Tool)
  pub metadata : Option Metadata
