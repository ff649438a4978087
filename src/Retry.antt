-- ===== src/Retry.antt =====
-- Errors and waits: internal/api/errors.go, internal/mount/cache/failures.go and
-- internal/mount/syncer/failures.go. A Go error is the record of what errors.Is and errors.As
-- find in its chain. A time.Duration is its 64-bit pattern, in nanoseconds.
pub mod Bounds
use pigcloud_cli.Common.{
  ℕ, ◌+◌, ◌-◌, ◌*◌, ◌/◌, ◌%◌, ◌^◌, String, Bool, true, false, not, ◌&&◌, ◌||◌, Option, none, some,
  min, ltb, leb, ◌==◌, same, if◌then◌else◌,
}

-- ErrorKind, in the order of the constants.
pub data Kind : Type 0 where
  permanent_kind transient_kind rate_limited_kind : Kind

pub record RequestError : Type 0 where
  pub kind : Kind
  pub status_code : ℕ
  pub retry_after : ℕ

pub record Failure : Type 0 where
  pub request : Option RequestError  -- errors.As *RequestError
  pub api_code : Option String  -- errors.As *APIError
  pub is_permanent : Bool  -- errors.As *permanentErr
  pub canceled : Bool  -- errors.Is context.Canceled
  pub timed_out : Bool  -- errors.As net.Error, Timeout()
  pub connection_lost : Bool  -- errors.Is EOF, ErrUnexpectedEOF or ECONNRESET
  pub bad_input : Bool  -- errors.As badInputError
  pub missing_file : Bool  -- errors.Is ErrNotExist or ErrPermission
  pub seal_stale : Bool  -- errors.Is errTeeSealStale
  pub message : String

abbrev pub second : ℕ
second = 1000000000

abbrev pub millisecond : ℕ
millisecond = 1000000

abbrev pub minute : ℕ
minute = 60 * second

abbrev pub hour : ℕ
hour = 3600 * second

abbrev pub two64 : ℕ
two64 = 2 ^ 64

abbrev pub two63 : ℕ
two63 = 2 ^ 63

-- d > 0 for the signed number of the pattern d
abbrev pub is_pos : ℕ → Bool
is_pos d = ltb 0 d && ltb d two63

abbrev pub max_rate_limit_delay : ℕ
max_rate_limit_delay = 15 * minute

abbrev pub max_scan_budget_delay : ℕ
max_scan_budget_delay = hour

abbrev pub kind_is : Kind → Kind → Bool
kind_is permanent_kind permanent_kind = true
kind_is transient_kind transient_kind = true
kind_is rate_limited_kind rate_limited_kind = true
kind_is _ _ = false

abbrev pub has_kind : Kind → Option RequestError → Bool
has_kind k none = false
has_kind k (some r) = kind_is r.kind k

unfoldable pub is_rate_limited : Failure → Bool
is_rate_limited e = has_kind rate_limited_kind e.request

unfoldable pub is_transient_request : Failure → Bool
is_transient_request e = has_kind transient_kind e.request

unfoldable pub is_permanent_request : Failure → Bool
is_permanent_request e = has_kind permanent_kind e.request

abbrev hint_of : Option RequestError → ℕ
hint_of none = 0
hint_of (some r) = r.retry_after

unfoldable pub retry_after_hint : Failure → ℕ
retry_after_hint e = hint_of e.request

unfoldable pub rate_limit_delay : ℕ → ℕ → ℕ
rate_limit_delay attempt hint =
    if is_pos hint then min hint max_rate_limit_delay else (15 * (attempt + 1) * second) % two64

abbrev pub code_is : String → Option String → Bool
code_is c none = false
code_is c (some d) = same d c

-- (wait, true) is `some wait`
unfoldable pub scan_budget_wait : Failure → Option ℕ
unfolding is_rate_limited retry_after_hint
scan_budget_wait e =
    if not (is_rate_limited e) || not (code_is "rate_limited" e.api_code)
    then none
    else if is_pos (retry_after_hint e)
    then some (min (retry_after_hint e) max_scan_budget_delay)
    else some minute

unfoldable pub rate_limit_exceeds_inline_wait : ℕ → Bool
rate_limit_exceeds_inline_wait hint = is_pos hint && ltb max_rate_limit_delay hint

unfoldable pub classify_status : ℕ → Kind
classify_status code =
    if code == 429
    then rate_limited_kind
    else if leb 500 code && not (code == 501)
    then transient_kind
    else permanent_kind

-- The value of a Retry-After header: none when it is absent or no integer; the integers that
-- matter are positive. The product wraps.
unfoldable pub retry_after_header : Option ℕ → ℕ
retry_after_header none = 0
retry_after_header (some secs) = if secs == 0 then 0 else (secs * second) % two64

unfoldable pub status_error : ℕ → Option ℕ → RequestError
unfolding classify_status retry_after_header
status_error code header = record {
  kind = classify_status code;
  status_code = code;
  retry_after = retry_after_header header;
}

unfoldable pub transport_retryable : Failure → Bool
transport_retryable e = if e.canceled then false else e.timed_out || e.connection_lost

abbrev pub transfer_retry_base : ℕ
transfer_retry_base = 30 * second

abbrev pub transfer_retry_max : ℕ
transfer_retry_max = hour

-- TransferRetryBase << n, which wraps, and the test behind it
unfoldable pub backoff_after_shift : ℕ → ℕ
backoff_after_shift n =
    let d = transfer_retry_base * 2 ^ n % two64 in
    if not (is_pos d) || ltb transfer_retry_max d then transfer_retry_max else d

unfoldable pub transfer_backoff : ℕ → ℕ
unfolding backoff_after_shift
transfer_backoff attempts = backoff_after_shift ((if ltb attempts 1 then 1 else attempts) - 1)

unfoldable pub writeback_retry_delay : Failure → ℕ → ℕ
writeback_retry_delay e attempts = elim (scan_budget_wait e) [
  | some wait ↦ wait
  | none ↦
      if is_rate_limited e
      then rate_limit_delay (attempts - 1) (retry_after_hint e)
      else transfer_backoff attempts
]
