-- ===== src/Watch/Windows.antt =====
-- src/cvebeacon/watch/feeds.py: `nvd_windows` and `euvd_chunks`, which split a span of time into
-- requests. An instant is a number of microseconds, a date an ordinal.
pub mod Cover
mod Tests
use cvebeacon.Prelude.{ℕ, zero, suc, ◌+◌, ◌-◌, ◌*◌, min, List, [], ◌∷◌, ltb, leb, if◌then◌else◌}

-- `timedelta(days=NVD_WINDOW_DAYS)` and EUVD_CHUNK_DAYS
abbrev pub nvd_step : ℕ
nvd_step = 120 * 86400000000

abbrev pub euvd_chunk_days : ℕ
euvd_chunk_days = 30

-- `while cursor < end`, on fuel.
unfoldable pub windows_from : ℕ → ℕ → ℕ → List (ℕ × ℕ)
windows_from zero cursor stop = []
windows_from (suc fuel) cursor stop =
    let following = min (cursor + nvd_step) stop in
    let rest = windows_from fuel following stop in
    if ltb cursor stop then (cursor, following) ∷ rest else []

unfoldable pub nvd_windows : ℕ → ℕ → List (ℕ × ℕ)
nvd_windows start stop = if leb stop start then [] else windows_from (stop - start) start stop

-- `while cursor <= end`, on fuel.
unfoldable pub chunks_from : ℕ → ℕ → ℕ → List (ℕ × ℕ)
chunks_from zero cursor stop = []
chunks_from (suc fuel) cursor stop =
    let following = min (cursor + (euvd_chunk_days - 1)) stop in
    let rest = chunks_from fuel (following + 1) stop in
    if leb cursor stop then (cursor, following) ∷ rest else []

unfoldable pub euvd_chunks : ℕ → ℕ → List (ℕ × ℕ)
euvd_chunks start stop = if ltb stop start then [] else chunks_from (stop + 1 - start) start stop
