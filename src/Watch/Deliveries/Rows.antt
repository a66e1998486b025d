-- ===== src/Watch/Deliveries/Rows.antt =====
-- The rows of `watch_event` and `watch_delivery` that the delivery methods read and write, and the
-- `UPDATE ... WHERE` statement.
pub mod Identifiers
pub mod Counting
use native.Mathlib.Nat.{pow-le-pow_right}
use cvebeacon.Prelude.{
  ℕ, zero, suc, ◌+◌, ◌*◌, ◌-◌, ◌^◌, ◌≤◌, String, ◌≡◌, refl, Bool, true, false, Option, none, some,
  List, [], ◌∷◌, ◌++◌, ◌&&◌, ◌||◌, map, ltb, leb, ◌==◌, str_eq, if◌then◌else◌, arith, min, slice_to,
}

pub data DeliveryStatus : Type 0 where
  pending sending sent failed ambiguous : DeliveryStatus

pub record DeliveryRow : Type 0 where
  pub event_id : ℕ
  pub channel : String
  pub status : DeliveryStatus
  pub attempts : ℕ
  pub last_error : Option String
  pub first_attempt_at : Option ℕ
  pub updated_at : ℕ

-- _INITIAL_AMBIGUOUS
abbrev pub initial_ambiguous : String
initial_ambiguous = "__ambiguous_before_retry__"

-- `last_error=?` with the sentinel
abbrev pub was_ambiguous : Option String → Bool
was_ambiguous none = false
was_ambiguous (some s) = str_eq s initial_ambiguous

-- `(error or "")[:500]`
unfoldable pub error_text : Option String → Option String
error_text none = some ""
error_text (some s) = some (slice_to 500 s)

abbrev pub max_attempts : ℕ
max_attempts = 10

abbrev pub second : ℕ
second = 1000000

abbrev pub status_code : DeliveryStatus → ℕ
status_code pending = 0
status_code sending = 1
status_code sent = 2
status_code failed = 3
status_code ambiguous = 4

-- `status IN (...)`
abbrev pub status_in : DeliveryStatus → List DeliveryStatus → Bool
status_in s [] = false
status_in s (t ∷ ts) = (status_code t == status_code s) || status_in s ts

abbrev pub id_in : ℕ → List ℕ → Bool
id_in i [] = false
id_in i (j ∷ js) = (j == i) || id_in i js

-- `COALESCE(first_attempt_at, ?)`
abbrev pub coalesce : Option ℕ → ℕ → Option ℕ
coalesce none now = some now
coalesce (some t) now = some t

-- `sorted({int(value) for value in event_ids})`
unfoldable pub insert_id : ℕ → List ℕ → List ℕ
insert_id i [] = i ∷ []
insert_id i (j ∷ js) =
    let rest = j ∷ insert_id i js in if i == j then j ∷ js else if ltb i j then i ∷ j ∷ js else rest

unfoldable pub sorted_set : List ℕ → List ℕ
unfolding insert_id
sorted_set [] = []
sorted_set (i ∷ is) = insert_id i (sorted_set is)

abbrev pub among : (DeliveryRow → Bool) → List ℕ → DeliveryRow → Bool
among test chunk r = id_in r.event_id chunk && test r

module _ (test : DeliveryRow → Bool) where
  abbrev pub count : List DeliveryRow → ℕ
  count [] = 0
  count (r ∷ rs) = (if test r then 1 else 0) + count rs

  -- The rows after an update of those that pass the test.
  abbrev pub rewrite : (DeliveryRow → DeliveryRow) → List DeliveryRow → List DeliveryRow
  rewrite change [] = []
  rewrite change (r ∷ rs) = (if test r then change r else r) ∷ rewrite change rs

  -- `cursor.rowcount` and the table after the statement.
  abbrev pub update : (DeliveryRow → DeliveryRow) → List DeliveryRow → ℕ × List DeliveryRow
  update change rows = (count rows, rewrite change rows)

-- `min(DELIVERY_RETRY_BASE_SECONDS * 2 ** max(0, attempts - 1), DELIVERY_RETRY_CAP_SECONDS)`
unfoldable pub delivery_retry_delay : ℕ → ℕ
delivery_retry_delay attempts = min (300 * 2 ^ (attempts - 1)) 21600

-- _RETRY_SECONDS_SQL
unfoldable pub retry_seconds_sql : ℕ → ℕ
retry_seconds_sql attempts =
    if leb attempts 1
    then 300
    else if attempts == 2
    then 600
    else if attempts == 3
    then 1200
    else if attempts == 4
    then 2400
    else if attempts == 5
    then 4800
    else if attempts == 6
    then 9600
    else if attempts == 7
    then 19200
    else 21600

large_power : (attempts : ℕ) → 8 ≤ attempts → 128 ≤ 2 ^ (attempts - 1)
large_power attempts h =
    pow-le-pow_right {n = 2} (omega arith) {i = 7} {j = attempts - 1} (omega arith)

-- The retry delays that the SQL condition writes out are the ones that delivery_retry_delay
-- computes, for every number of attempts.
pub retry_seconds_sql_lem :
    (attempts : ℕ) → retry_seconds_sql attempts ≡ delivery_retry_delay attempts
unfolding retry_seconds_sql delivery_retry_delay
retry_seconds_sql_lem zero = refl
retry_seconds_sql_lem (suc zero) = refl
retry_seconds_sql_lem (suc (suc zero)) = refl
retry_seconds_sql_lem (suc (suc (suc zero))) = refl
retry_seconds_sql_lem (suc (suc (suc (suc zero)))) = refl
retry_seconds_sql_lem (suc (suc (suc (suc (suc zero))))) = refl
retry_seconds_sql_lem (suc (suc (suc (suc (suc (suc zero)))))) = refl
retry_seconds_sql_lem (suc (suc (suc (suc (suc (suc (suc zero))))))) = refl
retry_seconds_sql_lem (suc (suc (suc (suc (suc (suc (suc (suc n)))))))) =
    let attempts : ℕ = suc (suc (suc (suc (suc (suc (suc (suc n))))))) in
    ground (arith, large_power attempts (omega arith))
