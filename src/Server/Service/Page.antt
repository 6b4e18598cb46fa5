-- ===== src/Server/Service/Page.antt =====
-- What the page says.
use getodac.Common.{ℕ, ◌+◌, ◌*◌, ◌≡◌, ◌<◌, arith}
use getodac.Server.Service.{uptime_parts}

-- The days, hours, minutes and seconds of an uptime add up to it, and there are less than 24 hours,
-- 60 minutes and 60 seconds.
pub uptime_parts_lem :
    (uptime : ℕ)
    → let u = uptime_parts uptime in
      (((u.days * 24 + u.hours) * 60 + u.minutes) * 60 + u.seconds ≡ uptime)
      × (u.hours < 24)
      × (u.minutes < 60)
      × (u.seconds < 60)
unfolding uptime_parts
uptime_parts_lem uptime = (omega arith, omega arith, omega arith, omega arith)
