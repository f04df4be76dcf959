-- ===== src/Font/High.antt =====
-- include/kernel/drivers/graphics/fonts/font.h: the glyphs 130 to 255.
use osakauss.Common.{ℕ, List, [], ◌∷◌}

abbrev pub glyphs_10 : List (List ℕ)
glyphs_10 =
    (0x0c ∷ 0x18 ∷ 0x7c ∷ 0xc6 ∷ 0xfe ∷ 0xc0 ∷ 0x7c ∷ 0x00 ∷ [])
    ∷ (0x7c ∷ 0x82 ∷ 0x78 ∷ 0x0c ∷ 0x7c ∷ 0xcc ∷ 0x76 ∷ 0x00 ∷ [])
    ∷ (0xc6 ∷ 0x00 ∷ 0x78 ∷ 0x0c ∷ 0x7c ∷ 0xcc ∷ 0x76 ∷ 0x00 ∷ [])
    ∷ (0x30 ∷ 0x18 ∷ 0x78 ∷ 0x0c ∷ 0x7c ∷ 0xcc ∷ 0x76 ∷ 0x00 ∷ [])
    ∷ (0x30 ∷ 0x30 ∷ 0x78 ∷ 0x0c ∷ 0x7c ∷ 0xcc ∷ 0x76 ∷ 0x00 ∷ [])
    ∷ (0x00 ∷ 0x00 ∷ 0x7e ∷ 0xc0 ∷ 0xc0 ∷ 0x7e ∷ 0x0c ∷ 0x38 ∷ [])
    ∷ (0x7c ∷ 0x82 ∷ 0x7c ∷ 0xc6 ∷ 0xfe ∷ 0xc0 ∷ 0x7c ∷ 0x00 ∷ [])
    ∷ (0xc6 ∷ 0x00 ∷ 0x7c ∷ 0xc6 ∷ 0xfe ∷ 0xc0 ∷ 0x7c ∷ 0x00 ∷ [])
    ∷ (0x30 ∷ 0x18 ∷ 0x7c ∷ 0xc6 ∷ 0xfe ∷ 0xc0 ∷ 0x7c ∷ 0x00 ∷ [])
    ∷ (0x66 ∷ 0x00 ∷ 0x38 ∷ 0x18 ∷ 0x18 ∷ 0x18 ∷ 0x3c ∷ 0x00 ∷ [])
    ∷ (0x7c ∷ 0x82 ∷ 0x38 ∷ 0x18 ∷ 0x18 ∷ 0x18 ∷ 0x3c ∷ 0x00 ∷ [])
    ∷ (0x30 ∷ 0x18 ∷ 0x00 ∷ 0x38 ∷ 0x18 ∷ 0x18 ∷ 0x3c ∷ 0x00 ∷ [])
    ∷ (0xc6 ∷ 0x38 ∷ 0x6c ∷ 0xc6 ∷ 0xfe ∷ 0xc6 ∷ 0xc6 ∷ 0x00 ∷ [])
    ∷ []

abbrev pub glyphs_11 : List (List ℕ)
glyphs_11 =
    (0x38 ∷ 0x6c ∷ 0x7c ∷ 0xc6 ∷ 0xfe ∷ 0xc6 ∷ 0xc6 ∷ 0x00 ∷ [])
    ∷ (0x18 ∷ 0x30 ∷ 0xfe ∷ 0xc0 ∷ 0xf8 ∷ 0xc0 ∷ 0xfe ∷ 0x00 ∷ [])
    ∷ (0x00 ∷ 0x00 ∷ 0x7e ∷ 0x18 ∷ 0x7e ∷ 0xd8 ∷ 0x7e ∷ 0x00 ∷ [])
    ∷ (0x3e ∷ 0x6c ∷ 0xcc ∷ 0xfe ∷ 0xcc ∷ 0xcc ∷ 0xce ∷ 0x00 ∷ [])
    ∷ (0x7c ∷ 0x82 ∷ 0x7c ∷ 0xc6 ∷ 0xc6 ∷ 0xc6 ∷ 0x7c ∷ 0x00 ∷ [])
    ∷ (0xc6 ∷ 0x00 ∷ 0x7c ∷ 0xc6 ∷ 0xc6 ∷ 0xc6 ∷ 0x7c ∷ 0x00 ∷ [])
    ∷ (0x30 ∷ 0x18 ∷ 0x7c ∷ 0xc6 ∷ 0xc6 ∷ 0xc6 ∷ 0x7c ∷ 0x00 ∷ [])
    ∷ (0x78 ∷ 0x84 ∷ 0x00 ∷ 0xcc ∷ 0xcc ∷ 0xcc ∷ 0x76 ∷ 0x00 ∷ [])
    ∷ (0x60 ∷ 0x30 ∷ 0xcc ∷ 0xcc ∷ 0xcc ∷ 0xcc ∷ 0x76 ∷ 0x00 ∷ [])
    ∷ (0xc6 ∷ 0x00 ∷ 0xc6 ∷ 0xc6 ∷ 0xc6 ∷ 0x7e ∷ 0x06 ∷ 0xfc ∷ [])
    ∷ (0xc6 ∷ 0x38 ∷ 0x6c ∷ 0xc6 ∷ 0xc6 ∷ 0x6c ∷ 0x38 ∷ 0x00 ∷ [])
    ∷ (0xc6 ∷ 0x00 ∷ 0xc6 ∷ 0xc6 ∷ 0xc6 ∷ 0xc6 ∷ 0x7c ∷ 0x00 ∷ [])
    ∷ (0x18 ∷ 0x18 ∷ 0x7e ∷ 0xc0 ∷ 0xc0 ∷ 0x7e ∷ 0x18 ∷ 0x18 ∷ [])
    ∷ []

abbrev pub glyphs_12 : List (List ℕ)
glyphs_12 =
    (0x38 ∷ 0x6c ∷ 0x64 ∷ 0xf0 ∷ 0x60 ∷ 0x66 ∷ 0xfc ∷ 0x00 ∷ [])
    ∷ (0x66 ∷ 0x66 ∷ 0x3c ∷ 0x7e ∷ 0x18 ∷ 0x7e ∷ 0x18 ∷ 0x18 ∷ [])
    ∷ (0xf8 ∷ 0xcc ∷ 0xcc ∷ 0xfa ∷ 0xc6 ∷ 0xcf ∷ 0xc6 ∷ 0xc7 ∷ [])
    ∷ (0x0e ∷ 0x1b ∷ 0x18 ∷ 0x3c ∷ 0x18 ∷ 0xd8 ∷ 0x70 ∷ 0x00 ∷ [])
    ∷ (0x18 ∷ 0x30 ∷ 0x78 ∷ 0x0c ∷ 0x7c ∷ 0xcc ∷ 0x76 ∷ 0x00 ∷ [])
    ∷ (0x0c ∷ 0x18 ∷ 0x00 ∷ 0x38 ∷ 0x18 ∷ 0x18 ∷ 0x3c ∷ 0x00 ∷ [])
    ∷ (0x0c ∷ 0x18 ∷ 0x7c ∷ 0xc6 ∷ 0xc6 ∷ 0xc6 ∷ 0x7c ∷ 0x00 ∷ [])
    ∷ (0x18 ∷ 0x30 ∷ 0xcc ∷ 0xcc ∷ 0xcc ∷ 0xcc ∷ 0x76 ∷ 0x00 ∷ [])
    ∷ (0x76 ∷ 0xdc ∷ 0x00 ∷ 0xdc ∷ 0x66 ∷ 0x66 ∷ 0x66 ∷ 0x00 ∷ [])
    ∷ (0x76 ∷ 0xdc ∷ 0x00 ∷ 0xe6 ∷ 0xf6 ∷ 0xde ∷ 0xce ∷ 0x00 ∷ [])
    ∷ (0x3c ∷ 0x6c ∷ 0x6c ∷ 0x3e ∷ 0x00 ∷ 0x7e ∷ 0x00 ∷ 0x00 ∷ [])
    ∷ (0x38 ∷ 0x6c ∷ 0x6c ∷ 0x38 ∷ 0x00 ∷ 0x7c ∷ 0x00 ∷ 0x00 ∷ [])
    ∷ (0x18 ∷ 0x00 ∷ 0x18 ∷ 0x18 ∷ 0x30 ∷ 0x63 ∷ 0x3e ∷ 0x00 ∷ [])
    ∷ []

abbrev pub glyphs_13 : List (List ℕ)
glyphs_13 =
    (0x00 ∷ 0x00 ∷ 0x00 ∷ 0xfe ∷ 0xc0 ∷ 0xc0 ∷ 0x00 ∷ 0x00 ∷ [])
    ∷ (0x00 ∷ 0x00 ∷ 0x00 ∷ 0xfe ∷ 0x06 ∷ 0x06 ∷ 0x00 ∷ 0x00 ∷ [])
    ∷ (0x63 ∷ 0xe6 ∷ 0x6c ∷ 0x7e ∷ 0x33 ∷ 0x66 ∷ 0xcc ∷ 0x0f ∷ [])
    ∷ (0x63 ∷ 0xe6 ∷ 0x6c ∷ 0x7a ∷ 0x36 ∷ 0x6a ∷ 0xdf ∷ 0x06 ∷ [])
    ∷ (0x18 ∷ 0x00 ∷ 0x18 ∷ 0x18 ∷ 0x3c ∷ 0x3c ∷ 0x18 ∷ 0x00 ∷ [])
    ∷ (0x00 ∷ 0x33 ∷ 0x66 ∷ 0xcc ∷ 0x66 ∷ 0x33 ∷ 0x00 ∷ 0x00 ∷ [])
    ∷ (0x00 ∷ 0xcc ∷ 0x66 ∷ 0x33 ∷ 0x66 ∷ 0xcc ∷ 0x00 ∷ 0x00 ∷ [])
    ∷ (0x22 ∷ 0x88 ∷ 0x22 ∷ 0x88 ∷ 0x22 ∷ 0x88 ∷ 0x22 ∷ 0x88 ∷ [])
    ∷ (0x55 ∷ 0xaa ∷ 0x55 ∷ 0xaa ∷ 0x55 ∷ 0xaa ∷ 0x55 ∷ 0xaa ∷ [])
    ∷ (0x77 ∷ 0xdd ∷ 0x77 ∷ 0xdd ∷ 0x77 ∷ 0xdd ∷ 0x77 ∷ 0xdd ∷ [])
    ∷ (0x18 ∷ 0x18 ∷ 0x18 ∷ 0x18 ∷ 0x18 ∷ 0x18 ∷ 0x18 ∷ 0x18 ∷ [])
    ∷ (0x18 ∷ 0x18 ∷ 0x18 ∷ 0x18 ∷ 0xf8 ∷ 0x18 ∷ 0x18 ∷ 0x18 ∷ [])
    ∷ (0x18 ∷ 0x18 ∷ 0xf8 ∷ 0x18 ∷ 0xf8 ∷ 0x18 ∷ 0x18 ∷ 0x18 ∷ [])
    ∷ []

abbrev pub glyphs_14 : List (List ℕ)
glyphs_14 =
    (0x36 ∷ 0x36 ∷ 0x36 ∷ 0x36 ∷ 0xf6 ∷ 0x36 ∷ 0x36 ∷ 0x36 ∷ [])
    ∷ (0x00 ∷ 0x00 ∷ 0x00 ∷ 0x00 ∷ 0xfe ∷ 0x36 ∷ 0x36 ∷ 0x36 ∷ [])
    ∷ (0x00 ∷ 0x00 ∷ 0xf8 ∷ 0x18 ∷ 0xf8 ∷ 0x18 ∷ 0x18 ∷ 0x18 ∷ [])
    ∷ (0x36 ∷ 0x36 ∷ 0xf6 ∷ 0x06 ∷ 0xf6 ∷ 0x36 ∷ 0x36 ∷ 0x36 ∷ [])
    ∷ (0x36 ∷ 0x36 ∷ 0x36 ∷ 0x36 ∷ 0x36 ∷ 0x36 ∷ 0x36 ∷ 0x36 ∷ [])
    ∷ (0x00 ∷ 0x00 ∷ 0xfe ∷ 0x06 ∷ 0xf6 ∷ 0x36 ∷ 0x36 ∷ 0x36 ∷ [])
    ∷ (0x36 ∷ 0x36 ∷ 0xf6 ∷ 0x06 ∷ 0xfe ∷ 0x00 ∷ 0x00 ∷ 0x00 ∷ [])
    ∷ (0x36 ∷ 0x36 ∷ 0x36 ∷ 0x36 ∷ 0xfe ∷ 0x00 ∷ 0x00 ∷ 0x00 ∷ [])
    ∷ (0x18 ∷ 0x18 ∷ 0xf8 ∷ 0x18 ∷ 0xf8 ∷ 0x00 ∷ 0x00 ∷ 0x00 ∷ [])
    ∷ (0x00 ∷ 0x00 ∷ 0x00 ∷ 0x00 ∷ 0xf8 ∷ 0x18 ∷ 0x18 ∷ 0x18 ∷ [])
    ∷ (0x18 ∷ 0x18 ∷ 0x18 ∷ 0x18 ∷ 0x1f ∷ 0x00 ∷ 0x00 ∷ 0x00 ∷ [])
    ∷ (0x18 ∷ 0x18 ∷ 0x18 ∷ 0x18 ∷ 0xff ∷ 0x00 ∷ 0x00 ∷ 0x00 ∷ [])
    ∷ (0x00 ∷ 0x00 ∷ 0x00 ∷ 0x00 ∷ 0xff ∷ 0x18 ∷ 0x18 ∷ 0x18 ∷ [])
    ∷ []

abbrev pub glyphs_15 : List (List ℕ)
glyphs_15 =
    (0x18 ∷ 0x18 ∷ 0x18 ∷ 0x18 ∷ 0x1f ∷ 0x18 ∷ 0x18 ∷ 0x18 ∷ [])
    ∷ (0x00 ∷ 0x00 ∷ 0x00 ∷ 0x00 ∷ 0xff ∷ 0x00 ∷ 0x00 ∷ 0x00 ∷ [])
    ∷ (0x18 ∷ 0x18 ∷ 0x18 ∷ 0x18 ∷ 0xff ∷ 0x18 ∷ 0x18 ∷ 0x18 ∷ [])
    ∷ (0x18 ∷ 0x18 ∷ 0x1f ∷ 0x18 ∷ 0x1f ∷ 0x18 ∷ 0x18 ∷ 0x18 ∷ [])
    ∷ (0x36 ∷ 0x36 ∷ 0x36 ∷ 0x36 ∷ 0x37 ∷ 0x36 ∷ 0x36 ∷ 0x36 ∷ [])
    ∷ (0x36 ∷ 0x36 ∷ 0x37 ∷ 0x30 ∷ 0x3f ∷ 0x00 ∷ 0x00 ∷ 0x00 ∷ [])
    ∷ (0x00 ∷ 0x00 ∷ 0x3f ∷ 0x30 ∷ 0x37 ∷ 0x36 ∷ 0x36 ∷ 0x36 ∷ [])
    ∷ (0x36 ∷ 0x36 ∷ 0xf7 ∷ 0x00 ∷ 0xff ∷ 0x00 ∷ 0x00 ∷ 0x00 ∷ [])
    ∷ (0x00 ∷ 0x00 ∷ 0xff ∷ 0x00 ∷ 0xf7 ∷ 0x36 ∷ 0x36 ∷ 0x36 ∷ [])
    ∷ (0x36 ∷ 0x36 ∷ 0x37 ∷ 0x30 ∷ 0x37 ∷ 0x36 ∷ 0x36 ∷ 0x36 ∷ [])
    ∷ (0x00 ∷ 0x00 ∷ 0xff ∷ 0x00 ∷ 0xff ∷ 0x00 ∷ 0x00 ∷ 0x00 ∷ [])
    ∷ (0x36 ∷ 0x36 ∷ 0xf7 ∷ 0x00 ∷ 0xf7 ∷ 0x36 ∷ 0x36 ∷ 0x36 ∷ [])
    ∷ (0x18 ∷ 0x18 ∷ 0xff ∷ 0x00 ∷ 0xff ∷ 0x00 ∷ 0x00 ∷ 0x00 ∷ [])
    ∷ []

abbrev pub glyphs_16 : List (List ℕ)
glyphs_16 =
    (0x36 ∷ 0x36 ∷ 0x36 ∷ 0x36 ∷ 0xff ∷ 0x00 ∷ 0x00 ∷ 0x00 ∷ [])
    ∷ (0x00 ∷ 0x00 ∷ 0xff ∷ 0x00 ∷ 0xff ∷ 0x18 ∷ 0x18 ∷ 0x18 ∷ [])
    ∷ (0x00 ∷ 0x00 ∷ 0x00 ∷ 0x00 ∷ 0xff ∷ 0x36 ∷ 0x36 ∷ 0x36 ∷ [])
    ∷ (0x36 ∷ 0x36 ∷ 0x36 ∷ 0x36 ∷ 0x3f ∷ 0x00 ∷ 0x00 ∷ 0x00 ∷ [])
    ∷ (0x18 ∷ 0x18 ∷ 0x1f ∷ 0x18 ∷ 0x1f ∷ 0x00 ∷ 0x00 ∷ 0x00 ∷ [])
    ∷ (0x00 ∷ 0x00 ∷ 0x1f ∷ 0x18 ∷ 0x1f ∷ 0x18 ∷ 0x18 ∷ 0x18 ∷ [])
    ∷ (0x00 ∷ 0x00 ∷ 0x00 ∷ 0x00 ∷ 0x3f ∷ 0x36 ∷ 0x36 ∷ 0x36 ∷ [])
    ∷ (0x36 ∷ 0x36 ∷ 0x36 ∷ 0x36 ∷ 0xff ∷ 0x36 ∷ 0x36 ∷ 0x36 ∷ [])
    ∷ (0x18 ∷ 0x18 ∷ 0xff ∷ 0x18 ∷ 0xff ∷ 0x18 ∷ 0x18 ∷ 0x18 ∷ [])
    ∷ (0x18 ∷ 0x18 ∷ 0x18 ∷ 0x18 ∷ 0xf8 ∷ 0x00 ∷ 0x00 ∷ 0x00 ∷ [])
    ∷ (0x00 ∷ 0x00 ∷ 0x00 ∷ 0x00 ∷ 0x1f ∷ 0x18 ∷ 0x18 ∷ 0x18 ∷ [])
    ∷ (0xff ∷ 0xff ∷ 0xff ∷ 0xff ∷ 0xff ∷ 0xff ∷ 0xff ∷ 0xff ∷ [])
    ∷ (0x00 ∷ 0x00 ∷ 0x00 ∷ 0x00 ∷ 0xff ∷ 0xff ∷ 0xff ∷ 0xff ∷ [])
    ∷ []

abbrev pub glyphs_17 : List (List ℕ)
glyphs_17 =
    (0xf0 ∷ 0xf0 ∷ 0xf0 ∷ 0xf0 ∷ 0xf0 ∷ 0xf0 ∷ 0xf0 ∷ 0xf0 ∷ [])
    ∷ (0x0f ∷ 0x0f ∷ 0x0f ∷ 0x0f ∷ 0x0f ∷ 0x0f ∷ 0x0f ∷ 0x0f ∷ [])
    ∷ (0xff ∷ 0xff ∷ 0xff ∷ 0xff ∷ 0x00 ∷ 0x00 ∷ 0x00 ∷ 0x00 ∷ [])
    ∷ (0x00 ∷ 0x00 ∷ 0x76 ∷ 0xdc ∷ 0xc8 ∷ 0xdc ∷ 0x76 ∷ 0x00 ∷ [])
    ∷ (0x78 ∷ 0xcc ∷ 0xcc ∷ 0xd8 ∷ 0xcc ∷ 0xc6 ∷ 0xcc ∷ 0x00 ∷ [])
    ∷ (0xfe ∷ 0xc6 ∷ 0xc0 ∷ 0xc0 ∷ 0xc0 ∷ 0xc0 ∷ 0xc0 ∷ 0x00 ∷ [])
    ∷ (0x00 ∷ 0x00 ∷ 0xfe ∷ 0x6c ∷ 0x6c ∷ 0x6c ∷ 0x6c ∷ 0x00 ∷ [])
    ∷ (0xfe ∷ 0xc6 ∷ 0x60 ∷ 0x30 ∷ 0x60 ∷ 0xc6 ∷ 0xfe ∷ 0x00 ∷ [])
    ∷ (0x00 ∷ 0x00 ∷ 0x7e ∷ 0xd8 ∷ 0xd8 ∷ 0xd8 ∷ 0x70 ∷ 0x00 ∷ [])
    ∷ (0x00 ∷ 0x00 ∷ 0x66 ∷ 0x66 ∷ 0x66 ∷ 0x66 ∷ 0x7c ∷ 0xc0 ∷ [])
    ∷ (0x00 ∷ 0x76 ∷ 0xdc ∷ 0x18 ∷ 0x18 ∷ 0x18 ∷ 0x18 ∷ 0x00 ∷ [])
    ∷ (0x7e ∷ 0x18 ∷ 0x3c ∷ 0x66 ∷ 0x66 ∷ 0x3c ∷ 0x18 ∷ 0x7e ∷ [])
    ∷ (0x38 ∷ 0x6c ∷ 0xc6 ∷ 0xfe ∷ 0xc6 ∷ 0x6c ∷ 0x38 ∷ 0x00 ∷ [])
    ∷ []

abbrev pub glyphs_18 : List (List ℕ)
glyphs_18 =
    (0x38 ∷ 0x6c ∷ 0xc6 ∷ 0xc6 ∷ 0x6c ∷ 0x6c ∷ 0xee ∷ 0x00 ∷ [])
    ∷ (0x0e ∷ 0x18 ∷ 0x0c ∷ 0x3e ∷ 0x66 ∷ 0x66 ∷ 0x3c ∷ 0x00 ∷ [])
    ∷ (0x00 ∷ 0x00 ∷ 0x7e ∷ 0xdb ∷ 0xdb ∷ 0x7e ∷ 0x00 ∷ 0x00 ∷ [])
    ∷ (0x06 ∷ 0x0c ∷ 0x7e ∷ 0xdb ∷ 0xdb ∷ 0x7e ∷ 0x60 ∷ 0xc0 ∷ [])
    ∷ (0x1e ∷ 0x30 ∷ 0x60 ∷ 0x7e ∷ 0x60 ∷ 0x30 ∷ 0x1e ∷ 0x00 ∷ [])
    ∷ (0x00 ∷ 0x7c ∷ 0xc6 ∷ 0xc6 ∷ 0xc6 ∷ 0xc6 ∷ 0xc6 ∷ 0x00 ∷ [])
    ∷ (0x00 ∷ 0xfe ∷ 0x00 ∷ 0xfe ∷ 0x00 ∷ 0xfe ∷ 0x00 ∷ 0x00 ∷ [])
    ∷ (0x18 ∷ 0x18 ∷ 0x7e ∷ 0x18 ∷ 0x18 ∷ 0x00 ∷ 0x7e ∷ 0x00 ∷ [])
    ∷ (0x30 ∷ 0x18 ∷ 0x0c ∷ 0x18 ∷ 0x30 ∷ 0x00 ∷ 0x7e ∷ 0x00 ∷ [])
    ∷ (0x0c ∷ 0x18 ∷ 0x30 ∷ 0x18 ∷ 0x0c ∷ 0x00 ∷ 0x7e ∷ 0x00 ∷ [])
    ∷ (0x0e ∷ 0x1b ∷ 0x1b ∷ 0x18 ∷ 0x18 ∷ 0x18 ∷ 0x18 ∷ 0x18 ∷ [])
    ∷ (0x18 ∷ 0x18 ∷ 0x18 ∷ 0x18 ∷ 0x18 ∷ 0xd8 ∷ 0xd8 ∷ 0x70 ∷ [])
    ∷ (0x00 ∷ 0x18 ∷ 0x00 ∷ 0x7e ∷ 0x00 ∷ 0x18 ∷ 0x00 ∷ 0x00 ∷ [])
    ∷ []

abbrev pub glyphs_19 : List (List ℕ)
glyphs_19 =
    (0x00 ∷ 0x76 ∷ 0xdc ∷ 0x00 ∷ 0x76 ∷ 0xdc ∷ 0x00 ∷ 0x00 ∷ [])
    ∷ (0x38 ∷ 0x6c ∷ 0x6c ∷ 0x38 ∷ 0x00 ∷ 0x00 ∷ 0x00 ∷ 0x00 ∷ [])
    ∷ (0x00 ∷ 0x00 ∷ 0x00 ∷ 0x18 ∷ 0x18 ∷ 0x00 ∷ 0x00 ∷ 0x00 ∷ [])
    ∷ (0x00 ∷ 0x00 ∷ 0x00 ∷ 0x18 ∷ 0x00 ∷ 0x00 ∷ 0x00 ∷ 0x00 ∷ [])
    ∷ (0x0f ∷ 0x0c ∷ 0x0c ∷ 0x0c ∷ 0xec ∷ 0x6c ∷ 0x3c ∷ 0x1c ∷ [])
    ∷ (0x6c ∷ 0x36 ∷ 0x36 ∷ 0x36 ∷ 0x36 ∷ 0x00 ∷ 0x00 ∷ 0x00 ∷ [])
    ∷ (0x78 ∷ 0x0c ∷ 0x18 ∷ 0x30 ∷ 0x7c ∷ 0x00 ∷ 0x00 ∷ 0x00 ∷ [])
    ∷ (0x00 ∷ 0x00 ∷ 0x3c ∷ 0x3c ∷ 0x3c ∷ 0x3c ∷ 0x00 ∷ 0x00 ∷ [])
    ∷ (0x00 ∷ 0x00 ∷ 0x00 ∷ 0x00 ∷ 0x00 ∷ 0x00 ∷ 0x00 ∷ 0x00 ∷ [])
    ∷ []
