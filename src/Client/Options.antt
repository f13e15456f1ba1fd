-- ===== src/Client/Options.antt =====
-- The options of a lock request (`lock` of src/client.ts): what is checked before the request is made. The key is a
-- text and there is a callback. `absent` stands for an option that is not in the object, `malformed` for one
-- that is no number of zero or more.
use live_mutex.Prelude.{
  ℕ, zero, suc, Bool, true, false, ◌&&◌, Option, none, some, leb, ◌==◌, if◌then◌else◌, ◌>>=◌,
}
use live_mutex.LinkedQueue.{Ttl, infinite, millis}
use live_mutex.Broker.Lock.{Limit, absent, malformed, whole}
use live_mutex.Client.{misused, Request, Client, call_back, lock_internal}

-- An option that has to be a boolean: whether it is there, and whether it is one.
pub data Flag : Type 0 where
  no_flag not_boolean : Flag
  flag : Bool → Flag

-- `ttl`: 0 and the like count as missing; `other` is no integer, `Infinity` among them.
pub data TtlOption : Type 0 where
  missing null_ other : TtlOption
  integer : ℕ → TtlOption

pub record LockOptions : Type 0 where
  pub max_holders : Limit
  pub semaphore : Limit
  pub force : Flag
  pub retry : Flag
  pub max_retries : Limit
  pub max_retry : Limit
  pub retry_max : Limit
  pub ttl : TtlOption
  pub lock_request_timeout : TtlOption
  pub wait : Bool
  pub keep_locks_after_death : Bool

-- `ttl` and `lockRetryMax` of the client.
pub record Defaults : Type 0 where
  pub ttl : Ttl
  pub lock_retry_max : ℕ

-- `max` and `semaphore`
unfoldable pub positive_option : Limit → Option (Option ℕ)
positive_option absent = some none
positive_option malformed = none
positive_option (whole zero) = none
positive_option (whole (suc n)) = some (some (suc n))

unfoldable pub is_flag : Flag → Bool
is_flag not_boolean = false
is_flag _ = true

-- `retry`, which sets `__maxRetries` to 0.
unfoldable pub retry_option : Flag → Option (Option ℕ)
retry_option no_flag = some none
retry_option not_boolean = none
retry_option (flag b) = some (some 0)

unfoldable pub agrees : ℕ → Option ℕ → Bool
agrees n none = true
agrees n (some m) = m == n

-- `maxRetries`, `maxRetry`, `retryMax`, with what `__maxRetries` is so far.
unfoldable pub retries_option : Limit → Option ℕ → Option (Option ℕ)
unfolding agrees
retries_option absent sofar = some sofar
retries_option malformed sofar = none
retries_option (whole n) sofar = if leb n 20 && agrees n sofar then some (some n) else none

abbrev pub or_default : ℕ → Option ℕ → ℕ
or_default d none = d
or_default d (some n) = n

unfoldable pub ttl_option : Ttl → TtlOption → Option Ttl
ttl_option d missing = some d
ttl_option d null_ = some infinite
ttl_option d other = none
ttl_option d (integer n) = if leb 3 n && leb n 800000 then some (millis n) else none

unfoldable pub is_timeout : TtlOption → Bool
is_timeout missing = true
is_timeout null_ = true
is_timeout other = false
is_timeout (integer n) = leb 20 n && leb n 800000

-- `__maxRetries`
unfoldable pub retries : Defaults → LockOptions → Option ℕ
unfolding retry_option retries_option
retries d o = do
  first ← retry_option o.retry
  second ← retries_option o.max_retries first
  third ← retries_option o.max_retry second
  fourth ← retries_option o.retry_max third
  some (or_default d.lock_retry_max fourth)

abbrev pub only_if : Bool → Request → Option Request
only_if b r = if b then some r else none

-- The request that a `lock` makes for a key; `none` where an assertion fails.
unfoldable pub read_options : Defaults → ℕ → LockOptions → Option Request
unfolding positive_option retries ttl_option is_flag is_timeout
read_options d key o = do
  limit ← positive_option o.max_holders
  unused ← positive_option o.semaphore
  n ← retries d o
  t ← ttl_option d.ttl o.ttl
  only_if (is_flag o.force && is_timeout o.lock_request_timeout) (record {
    key = key;
    ttl = t;
    max = limit;
    wait = o.wait;
    max_retries = n;
    retry_count = 0;
    keep_locks_after_death = o.keep_locks_after_death;
  })

abbrev pub lock_or_misuse : ℕ → Option Request → Client → Client
lock_or_misuse u none c = call_back u misused c
lock_or_misuse u (some r) c = lock_internal u r c

-- `lock`
unfoldable pub lock : Defaults → (uuid key : ℕ) → LockOptions → Client → Client
unfolding read_options
lock d u key o c = lock_or_misuse u (read_options d key o) c
