-- ===== src/Http/Message.antt =====
-- include/dracon/http.h: `Response::toString` and `operator<<`.
pub mod Framing
pub mod Lines
use getodac.Common.Bytes.{Bytes, codes}
use getodac.Common.Int.{ℤ, pos, negsuc, max_ℤ}
use getodac.Common.Numerals.{print_number}
use getodac.Common.{
  ℕ, zero, suc, ◌+◌, ◌*◌, ◌/◌, Bool, true, false, List, [], ◌∷◌, ◌++◌, ◌==◌, if◌then◌else◌,
}
use getodac.Http.Response.{Response, Fields, chunked_data}
use getodac.Http.Status.{crlf, status_code_string}

-- `kv.first << ": " << kv.second << CrlfString` for each field.
unfoldable pub field_lines : Fields → Bytes
field_lines [] = []
field_lines ((name, value) ∷ fields) =
    name ++ (codes ": " ++ (value ++ (crlf ++ field_lines fields)))

unfoldable pub length_line : ℕ → Bytes
length_line n =
    if n == chunked_data
    then codes "Transfer-Encoding: chunked" ++ crlf
    else codes "Content-Length: " ++ (print_number 10 n ++ crlf)

unfoldable pub connection_lines : ℤ → Bytes
connection_lines (pos (suc n)) =
    codes "Keep-Alive: timeout="
    ++ (print_number 10 (suc n) ++ (crlf ++ (codes "Connection: keep-alive" ++ crlf)))
connection_lines (pos zero) = codes "Connection: close" ++ crlf
connection_lines (negsuc n) = codes "Connection: close" ++ crlf

-- `keepAliveOverride`: -1 stands for the response's own.
unfoldable pub keep_alive_of : ℤ → ℤ → ℤ
keep_alive_of (negsuc zero) own = own
keep_alive_of (negsuc (suc n)) own = negsuc (suc n)
keep_alive_of (pos n) own = pos n

-- `if (!statusCode) statusCode = 500`
unfoldable pub nonzero_status : ℕ → ℕ
nonzero_status zero = 500
nonzero_status (suc n) = suc n

unfoldable pub to_string : Response → ℤ → Bytes
unfolding field_lines length_line connection_lines keep_alive_of nonzero_status
to_string r keep_alive_override =
    codes "HTTP/1.1 "
    ++ (status_code_string (nonzero_status r.status_code)
        ++ (field_lines r.fields
            ++ (length_line r.content_length
                ++ (connection_lines (keep_alive_of keep_alive_override r.keep_alive)
                    ++ (crlf ++ r.body)))))

-- What `operator<<` uses of an AbstractStream: two settings, and the buffers that are written.
pub record StreamState : Type 0 where
  pub keep_alive : ℤ
  pub session_timeout : ℤ
  pub written : List Bytes

-- `stream.setKeepAlive`
unfoldable pub send_keep_alive : ℤ → StreamState → StreamState
send_keep_alive (negsuc zero) s = s
send_keep_alive (negsuc (suc n)) s = record s { keep_alive = negsuc (suc n) }
send_keep_alive (pos n) s = record s { keep_alive = pos n }

-- `stream.setSessionTimeout(std::max(...))`
unfoldable pub send_timeout : ℕ → StreamState → StreamState
send_timeout n s =
    if n == chunked_data
    then s
    else record s { session_timeout = max_ℤ s.session_timeout (pos (10 + n / (512 * 1024))) }

-- operator<<
unfoldable pub send : Response → StreamState → StreamState
unfolding send_keep_alive send_timeout
send r s =
    let s' = send_timeout r.content_length (send_keep_alive r.keep_alive s) in
    record s' { written = s'.written ++ to_string r s'.keep_alive ∷ [] }
