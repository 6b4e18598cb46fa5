-- ===== src/Http/Status.antt =====
-- include/dracon/http.h: the table of status lines, and `statusCodeString`.
pub mod Lines
use getodac.Common.Bytes.{Bytes, codes}
use getodac.Common.{ℕ, List, [], ◌∷◌, ◌++◌, Option, none, some, ◌==◌, if◌then◌else◌}

-- `CrlfString`
abbrev pub crlf : Bytes
crlf = 13 ∷ 10 ∷ []

-- `StatusCodes`, with the line ends that each text has behind it added by `status_line`.
abbrev pub status_codes : List (ℕ × Bytes)
status_codes =
    (100, codes "100 Continue")
    ∷ (101, codes "101 Switching Protocols")
    ∷ (200, codes "200 OK")
    ∷ (201, codes "201 Created")
    ∷ (202, codes "202 Accepted")
    ∷ (203, codes "203 Non-Authoritative Information")
    ∷ (204, codes "204 No Content")
    ∷ (205, codes "205 Reset Content")
    ∷ (206, codes "206 Partial Content")
    ∷ (300, codes "300 Multiple Choices")
    ∷ (301, codes "301 Moved Permanently")
    ∷ (302, codes "302 Found")
    ∷ (303, codes "303 See Other")
    ∷ (304, codes "304 Not Modified")
    ∷ (305, codes "305 Use Proxy")
    ∷ (306, codes "306 Switch Proxy")
    ∷ (307, codes "307 Temporary Redirect")
    ∷ (400, codes "400 Bad Request")
    ∷ (401, codes "401 Unauthorized")
    ∷ (402, codes "402 Payment Required")
    ∷ (403, codes "403 Forbidden")
    ∷ (404, codes "404 Not Found")
    ∷ (405, codes "405 Method Not Allowed")
    ∷ (406, codes "406 Not Acceptable")
    ∷ (407, codes "407 Proxy Authentication Required")
    ∷ (408, codes "408 Request Timeout")
    ∷ (409, codes "409 Conflict")
    ∷ (410, codes "410 Gone")
    ∷ (411, codes "411 Length Required")
    ∷ (412, codes "412 Precondition Failed")
    ∷ (413, codes "413 Request Entity Too Large")
    ∷ (414, codes "414 Request-URI Too Long")
    ∷ (415, codes "415 Unsupported Media Type")
    ∷ (416, codes "415 Requested Range Not Satisfiable")
    ∷ (417, codes "417 Expectation Failed")
    ∷ (500, codes "500 Internal Server Error")
    ∷ (501, codes "501 Not Implemented")
    ∷ (502, codes "502 Bad Gateway")
    ∷ (503, codes "503 Service Unavailable")
    ∷ (504, codes "504 Gateway Timeout")
    ∷ (505, codes "505 HTTP Version Not Supported")
    ∷ []

-- `StatusCodes.find(status)`
unfoldable pub find_status : ℕ → List (ℕ × Bytes) → Option Bytes
find_status status [] = none
find_status status ((code, text) ∷ table) =
    if code == status then some text else find_status status table

-- `StatusCodes.at(500)`
abbrev pub internal_server_error : Bytes
internal_server_error = codes "500 Internal Server Error"

-- The text that `statusCodeString` returns, without the line end.
unfoldable pub status_text : ℕ → Bytes
unfolding find_status
status_text status = elim (find_status status status_codes) [
  | some text ↦ text
  | none ↦ internal_server_error
]

unfoldable pub status_code_string : ℕ → Bytes
unfolding status_text
status_code_string status = status_text status ++ crlf
