-- ===== src/Http/Response.antt =====
-- include/dracon/http.h, class Response: its state and setters.
use getodac.Common.Bytes.{Bytes}
use getodac.Common.Int.{ℤ, negsuc}
use getodac.Common.{ℕ, ◌-◌, ◌^◌, List, [], length}

abbrev pub Fields : Type 0
Fields = List (Bytes × Bytes)

-- `std::numeric_limits<size_t>::max()`
abbrev pub chunked_data : ℕ
chunked_data = 2 ^ 64 - 1

pub record Response : Type 0 where
  pub fields : Fields
  pub status_code : ℕ
  pub body : Bytes
  pub content_length : ℕ
  pub keep_alive : ℤ

-- The constructor.
unfoldable pub response : ℕ → Bytes → Fields → Response
response status body fields = record {
  fields = fields;
  status_code = status;
  body = body;
  content_length = length body;
  keep_alive = negsuc 0;
}

unfoldable pub set_status_code : ℕ → Response → Response
set_status_code status r = record r { status_code = status }

unfoldable pub set_content_length : ℕ → Response → Response
set_content_length n r = record r { content_length = n; body = [] }

unfoldable pub set_keep_alive : ℤ → Response → Response
set_keep_alive seconds r = record r { keep_alive = seconds }

unfoldable pub set_body : Bytes → Response → Response
set_body body r = record r { body = body; content_length = length body }
