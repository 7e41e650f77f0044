-- ===== src/Schema/Platforms.antt =====
-- What the models take from the standard library: digests (`hashlib` over `json.dumps`), URLs
-- (`urllib.parse`) and case folding. No law about them is assumed.
use scope_proof.Base.{String, Option, List}
use scope_proof.Schema.Criteria.{Criterion}
use scope_proof.Schema.Junit.{JunitCriterionMapping}

-- What `urlsplit` returns.
pub record SplitUrl : Type 0 where
  pub scheme : String
  pub netloc : String
  pub path : String
  pub query : String
  pub fragment : String

pub record Platform : Type 0 where
  -- `normalized_criteria_sha256`
  pub criteria_sha256 : List Criterion → String
  -- `source_text_sha256`
  pub text_sha256 : String → String
  -- The digest in `junit_mapping_sha256`.
  pub mappings_sha256 : List JunitCriterionMapping → String
  -- `none` where `urlsplit` raises ValueError.
  pub urlsplit : String → Option SplitUrl
  -- `quote(text, safe=safe)`
  pub quote : (text safe : String) → String
  -- `str.casefold`
  pub casefold : String → String
