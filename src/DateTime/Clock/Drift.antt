-- ===== src/DateTime/Clock/Drift.antt =====
-- Moving a time by milliseconds.
use btool.DateTime.{DateTime}
use btool.DateTime.Clock.{Clock}
