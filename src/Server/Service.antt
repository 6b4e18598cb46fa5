-- ===== src/Server/Service.antt =====
-- src/server/serverservicesessions.cpp: the page with the status of the server. What the stream
-- reads and writes comes from outside: `arrived` is what `stream >> req` throws, if it does, and
-- `sent` what `stream << res` does for a response.
pub mod Page
use getodac.Common.Bytes.{Bytes, codes, bytes_eq}
use getodac.Common.Maps.{assign}
use getodac.Common.Numerals.{print_number}
use getodac.Common.{
  ℕ, ◌-◌, ◌*◌, ◌/◌, Bool, true, false, ◌&&◌, List, [], ◌∷◌, ◌++◌, if◌then◌else◌, length, max,
}
use getodac.Exceptions.{
  Thrown, int_error, response_error, std_exception, error_code, unknown, Result, ok, throw,
}
use getodac.Http.Request.{Request}
use getodac.Http.Response.{Response, response, set_body}
use getodac.Server.Connections.{ServerState}

-- `Server::activeSessions` and `Server::peakSessions`.
unfoldable pub active_count : ServerState → ℕ
active_count s = length s.active_sessions

unfoldable pub peak_count : ServerState → ℕ
peak_count s = s.peak_sessions

pub record Uptime : Type 0 where
  pub days : ℕ
  pub hours : ℕ
  pub minutes : ℕ
  pub seconds : ℕ

unfoldable pub uptime_parts : ℕ → Uptime
uptime_parts uptime =
    let days = uptime / (60 * 60 * 24) in
    let behind_days = uptime - days * (60 * 60 * 24) in
    let hours = behind_days / (60 * 60) in
    let behind_hours = behind_days - hours * (60 * 60) in
    let minutes = behind_hours / 60 in
    record { days = days; hours = hours; minutes = minutes; seconds = behind_hours - minutes * 60 }

abbrev decimal : ℕ → Bytes
decimal = print_number 10

-- The text of the page; the peak is updated slowly.
unfoldable pub status_page : ServerState → (served uptime : ℕ) → Bytes
unfolding active_count peak_count uptime_parts print_number
status_page s served uptime =
    let u = uptime_parts uptime in
    codes "Active sessions: "
    ++ decimal (active_count s)
    ++ codes "\n"
    ++ codes "Sessions peak: "
    ++ decimal (max (peak_count s) (active_count s))
    ++ codes "\n"
    ++ codes "Uptime: "
    ++ decimal u.days
    ++ codes " days, "
    ++ decimal u.hours
    ++ codes " hours, "
    ++ decimal u.minutes
    ++ codes " minutes and "
    ++ decimal u.seconds
    ++ codes " seconds"
    ++ codes "\n"
    ++ codes "Serverd sessions: "
    ++ decimal served
    ++ codes "\n"

unfoldable pub status_response : ServerState → (served uptime : ℕ) → Response
unfolding status_page set_body response assign
status_response s served uptime =
    let r = response 200 [] [] in
    set_body (status_page s served uptime)
      (record r { fields = assign (codes "Refresh") (codes "5") r.fields })

-- What the catch clauses answer; `message` is that of an error code.
unfoldable pub caught_response : (ℕ → Bytes) → Thrown → Response
unfolding response
caught_response message (response_error res) = res
caught_response message (error_code errno) = response 500 (message errno) []
caught_response message (std_exception what) = response 500 what []
caught_response message (int_error n) = response 500 [] []
caught_response message unknown = response 500 [] []

-- `writeResponse`: the responses that it writes, and what it throws. When the page is written
-- `canWriteError` is false, and what that throws is caught.
unfoldable pub write_page :
    (ℕ → Bytes)
    → (sent : Response → Result (Unit {0})) → (arrived : Result (Unit {0})) → ServerState
    → (served uptime : ℕ) → List Response × Result (Unit {0})
unfolding status_response caught_response
write_page message sent (throw e) s served uptime =
    let res = caught_response message e in (res ∷ [], sent res)
write_page message sent (ok _) s served uptime = (status_response s served uptime ∷ [], ok tt)

-- `createSession`: whether the request is for the page.
unfoldable pub has_page : Request → Bool
unfolding bytes_eq
has_page req = bytes_eq req.url (codes "/server_status") && bytes_eq req.method (codes "GET")
