-- ===== src/Watch/Windows/Cover.antt =====
-- The requests cover the whole span, without a gap or an overlap.
use cvebeacon.Prelude.{ℕ, zero, suc, ◌+◌, ◌-◌, min, ◌≤◌, ◌<◌, ◌≡◌, List, [], ◌∷◌, arith}
use cvebeacon.Watch.Windows.{
  nvd_step, euvd_chunk_days, windows_from, nvd_windows, chunks_from, euvd_chunks,
}

-- Spans that follow each other from one instant to another, none empty or longer than a step.
abbrev pub Adjoins : ℕ → ℕ → List (ℕ × ℕ) → Type 0
Adjoins cursor stop [] = cursor ≡ stop
Adjoins cursor stop ((a, b) ∷ rest) =
    (a ≡ cursor) × (a < b) × (b ≤ a + nvd_step) × Adjoins b stop rest

-- The same of ranges of days that include both ends.
abbrev pub CoversDays : ℕ → ℕ → List (ℕ × ℕ) → Type 0
CoversDays cursor stop [] = cursor ≡ stop + 1
CoversDays cursor stop ((a, b) ∷ rest) =
    (a ≡ cursor) × (a ≤ b) × (b < a + euvd_chunk_days) × CoversDays (b + 1) stop rest

windows_from-Adjoins :
    (fuel cursor stop : ℕ)
    → cursor ≤ stop
    → stop - cursor ≤ fuel
    → Adjoins cursor stop (windows_from fuel cursor stop)
unfolding windows_from
windows_from-Adjoins zero cursor stop h f = omega arith
windows_from-Adjoins (suc fuel) cursor stop h f =
    ground (arith, windows_from-Adjoins fuel (min (cursor + nvd_step) stop) stop (omega arith))

chunks_from-CoversDays :
    (fuel cursor stop : ℕ)
    → cursor ≤ stop + 1
    → stop + 1 - cursor ≤ fuel
    → CoversDays cursor stop (chunks_from fuel cursor stop)
unfolding chunks_from
chunks_from-CoversDays zero cursor stop h f = omega arith
chunks_from-CoversDays (suc fuel) cursor stop h f = ground (
  arith,
  chunks_from-CoversDays fuel (min (cursor + (euvd_chunk_days - 1)) stop + 1) stop (omega arith),
)

-- From a start that is not after the end, the NVD windows lead from one to the other, each
-- beginning where the one before ends, none empty and none longer than 120 days.
pub nvd_windows-Adjoins :
    (start stop : ℕ) → start ≤ stop → Adjoins start stop (nvd_windows start stop)
unfolding nvd_windows
nvd_windows-Adjoins start stop h =
    ground (arith, windows_from-Adjoins (stop - start) start stop h (omega arith))

-- From a first day that is not after the last, the EUVD chunks cover every day once and in order,
-- each of at most 30 days.
pub euvd_chunks-CoversDays :
    (start stop : ℕ) → start ≤ stop → CoversDays start stop (euvd_chunks start stop)
unfolding euvd_chunks
euvd_chunks-CoversDays start stop h =
    ground (arith, chunks_from-CoversDays (stop + 1 - start) start stop (omega arith) (omega arith))
