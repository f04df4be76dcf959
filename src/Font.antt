-- ===== src/Font.antt =====
-- include/kernel/drivers/graphics/fonts/font.h: the font, 8 rows of 8 pixels for each character.
pub mod Low
pub mod High
pub mod Laws
mod Tests
use osakauss.Common.{ℕ, List, [], ◌++◌, get_or}
use osakauss.Font.Low.{
  glyphs_0, glyphs_1, glyphs_2, glyphs_3, glyphs_4, glyphs_5, glyphs_6, glyphs_7, glyphs_8,
  glyphs_9,
}
use osakauss.Font.High.{
  glyphs_10, glyphs_11, glyphs_12, glyphs_13, glyphs_14, glyphs_15, glyphs_16, glyphs_17, glyphs_18,
  glyphs_19,
}

-- `FONTDATAMAX`
abbrev pub fontdatamax : ℕ
fontdatamax = 2048

-- the table, without the zeroes that fill it up to `fontdatamax`
abbrev pub glyphs : List (List ℕ)
glyphs =
    glyphs_0
    ++ (glyphs_1
        ++ (glyphs_2
            ++ (glyphs_3
                ++ (glyphs_4
                    ++ (glyphs_5
                        ++ (glyphs_6
                            ++ (glyphs_7
                                ++ (glyphs_8
                                    ++ (glyphs_9
                                        ++ (glyphs_10
                                            ++ (glyphs_11
                                                ++ (glyphs_12
                                                    ++ (glyphs_13
                                                        ++ (glyphs_14
                                                            ++ (glyphs_15
                                                            ++ (glyphs_16
                                                            ++ (glyphs_17
                                                            ++ (glyphs_18
                                                            ++ (glyphs_19)))))))))))))))))))

-- `font[c][i]`
unfoldable pub font : ℕ → ℕ → ℕ
font c i = get_or (get_or glyphs c []) i 0
