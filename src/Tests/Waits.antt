-- ===== src/Tests/Waits.antt =====
-- The waits at concrete attempts.
use pigcloud_cli.Common.{◌*◌, ◌≤◌, ◌<◌, arith, some, false}
use pigcloud_cli.Retry.{Failure, rate_limited_kind, hour, second, writeback_retry_delay}
use pigcloud_cli.Retry.Bounds.{writeback_retry_delay_bounds}

abbrev patient_server : Failure
patient_server = record {
  request =
      some (record { kind = rate_limited_kind; status_code = 429; retry_after = 7200 * second });
  api_code = some "rate_limited";
  is_permanent = false;
  canceled = false;
  timed_out = false;
  connection_lost = false;
  bad_input = false;
  missing_file = false;
  seal_stale = false;
  message = "slow down";
}

writeback_retry_delay_bounds_example :
    (0 < writeback_retry_delay patient_server 4) × (writeback_retry_delay patient_server 4 ≤ hour)
writeback_retry_delay_bounds_example =
    writeback_retry_delay_bounds patient_server 4 (omega arith) (omega arith)
