-- ===== src/Examples/Dates.antt =====
-- A date of a presigned URL.
use ferrobucket.Base.{◌≡◌}
use ferrobucket.Presign.{days_to_ymd}
use ferrobucket.Presign.Calendar.Days.{day_after_epoch, days_to_ymd-day_after_epoch}

-- The last day of February 1972.
days_to_ymd-day_after_epoch_example : days_to_ymd 789 ≡ day_after_epoch 789
days_to_ymd-day_after_epoch_example = days_to_ymd-day_after_epoch 789
