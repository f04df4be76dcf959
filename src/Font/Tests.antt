-- ===== src/Font/Tests.antt =====
-- Runs of the font: the letters "O" and "Q".
use osakauss.Common.{ℕ, ◌<◌, ◌≡◌, ◌≢◌, refl, arith}
use osakauss.Font.{font}
use osakauss.Font.Laws.{font-printable}

font-row : font b'A' 0 ≡ 0x38
unfolding font
font-row = refl

font-printable_example : (i : ℕ) × (i < 8) × (font b'O' i ≢ font b'Q' i)
font-printable_example =
    font-printable b'O' b'Q' (omega arith) (omega arith) (omega arith) (omega arith) (omega arith)
