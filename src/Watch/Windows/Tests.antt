-- ===== src/Watch/Windows/Tests.antt =====
-- The theorems on spans of time at concrete spans.
use cvebeacon.Prelude.{◌≡◌, refl, [], ◌∷◌, arith}
use cvebeacon.Watch.Windows.{nvd_windows, euvd_chunks, chunks_from}
use cvebeacon.Watch.Windows.Cover.{Adjoins, CoversDays, nvd_windows-Adjoins, euvd_chunks-CoversDays}

nvd_windows-Adjoins_example : Adjoins 5 90 (nvd_windows 5 90)
nvd_windows-Adjoins_example = nvd_windows-Adjoins 5 90 (omega arith)

euvd_chunks-CoversDays_example : CoversDays 100 165 (euvd_chunks 100 165)
euvd_chunks-CoversDays_example = euvd_chunks-CoversDays 100 165 (omega arith)

three_chunks : euvd_chunks 100 165 ≡ (100, 129) ∷ (130, 159) ∷ (160, 165) ∷ []
unfolding euvd_chunks chunks_from
three_chunks = refl
