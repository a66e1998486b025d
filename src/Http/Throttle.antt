-- ===== src/Http/Throttle.antt =====
-- src/cvebeacon/http.py: `Throttle.wait`, the bounded backoff for one host. Times are natural
-- numbers of a small unit; where the source clamps a negative time, it is a value of `Seconds`.
pub mod Budget
mod Tests
use cvebeacon.Prelude.{
  ℕ, zero, suc, ◌+◌, ◌-◌, min, Bool, Option, none, some, List, [], ◌∷◌, ltb, leb, ◌==◌,
  if◌then◌else◌, length,
}

pub data Seconds : Type 0 where
  ahead behind : ℕ → Seconds

-- `max(seconds, 0.0)`
abbrev pub clamp : Seconds → ℕ
clamp (ahead n) = n
clamp (behind n) = 0

-- The fields of the dataclass without `sleep` and `succeeded`, which `wait` does not read.
pub record Throttle : Type 0 where
  pub delays : List Seconds
  pub maximum_delay : ℕ
  pub budget_seconds : ℕ
  pub maximum_retries : ℕ
  pub count : ℕ
  pub waited : ℕ

-- What a call leads to: an IndexError where there are no delays, False, or the time slept and True.
pub data Wait : Type 0 where
  no_delays gave_up : Wait
  slept : ℕ → Throttle → Wait

-- `self.delays[min(self.count, len(self.delays) - 1)]`
unfoldable pub delay_at : List Seconds → ℕ → Option Seconds
delay_at [] n = none
delay_at (d ∷ []) n = some d
delay_at (d ∷ e ∷ ds) zero = some d
delay_at (d ∷ e ∷ ds) (suc n) = delay_at (e ∷ ds) n

abbrev pub rest_for : ℕ → Throttle → Wait
rest_for delay t = slept delay (record t { count = t.count + 1; waited = t.waited + delay })

abbrev next_delay : Throttle → ℕ → Option Seconds → Wait
next_delay t remaining none = no_delays
next_delay t remaining (some d) = rest_for (min (min (clamp d) t.maximum_delay) remaining) t

abbrev asked_delay : Throttle → ℕ → Seconds → Wait
asked_delay t remaining d =
    let delay = min (clamp d) t.maximum_delay in
    if ltb remaining delay then gave_up else rest_for delay t

abbrev delayed : Throttle → ℕ → Option Seconds → Wait
delayed t remaining none = next_delay t remaining (delay_at t.delays t.count)
delayed t remaining (some d) = asked_delay t remaining d

unfoldable pub wait : Throttle → Option Seconds → Wait
wait t retry_after =
    let remaining = t.budget_seconds - t.waited in
    if leb t.maximum_retries t.count
    then gave_up
    else if remaining == 0
    then gave_up
    else delayed t remaining retry_after
