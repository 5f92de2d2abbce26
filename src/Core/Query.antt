-- ===== src/Core/Query.antt =====
-- kube-core/src/params.rs: what the parameters of the calls have in common: the validation error, and
-- the query. A query is the list of its pairs; a number stands for its decimal
-- text, and numbers for theirs with commas between them. A port that is there twice stands for the message
-- about it.
use kube.Prelude.{ℕ, Option, none, some, List, [], ◌∷◌, ◌++◌, String, string_eq}

pub data ValidationError : Type 0 where
  validation : String → ValidationError
  repeated_port : ℕ → ValidationError

-- The integers over the native numbers.
pub data ℤ : Type 0 where
  pos negsuc : ℕ → ℤ

pub data QueryValue : Type 0 where
  text : String → QueryValue
  number : ℕ → QueryValue
  integer : ℤ → QueryValue
  numbers : List ℕ → QueryValue

abbrev pub Query : Type 0
Query = List (String × QueryValue)

-- `append_pair`, and its use under `if let`.
abbrev pub append_text : String → Option String → Query → Query
append_text key none qp = qp
append_text key (some value) qp = qp ++ ((key, text value) ∷ [])

abbrev pub append_number : String → Option ℕ → Query → Query
append_number key none qp = qp
append_number key (some value) qp = qp ++ ((key, number value) ∷ [])

abbrev pub append_integer : String → Option ℤ → Query → Query
append_integer key none qp = qp
append_integer key (some value) qp = qp ++ ((key, integer value) ∷ [])
