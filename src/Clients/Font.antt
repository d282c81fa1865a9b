-- ===== src/Clients/Font.antt =====
-- user-clients/font.h: the bitmaps of the characters, eight rows of eight pixels each.
use qemu_devices_and_drivers.Base.{ℕ, ◌==◌, if◌then◌else◌, List, [], ◌∷◌, get_or}

-- The designated initializers of `font`: a character's code and its rows.
abbrev glyphs : List (ℕ × List ℕ)
glyphs =
    (0x20, 0x00 ∷ 0x00 ∷ 0x00 ∷ 0x00 ∷ 0x00 ∷ 0x00 ∷ 0x00 ∷ 0x00 ∷ [])
    ∷ (0x21, 0x18 ∷ 0x18 ∷ 0x18 ∷ 0x18 ∷ 0x00 ∷ 0x00 ∷ 0x18 ∷ 0x00 ∷ [])
    ∷ (0x3f, 0x3c ∷ 0x42 ∷ 0x02 ∷ 0x0c ∷ 0x10 ∷ 0x00 ∷ 0x10 ∷ 0x00 ∷ [])
    ∷ (0x2e, 0x00 ∷ 0x00 ∷ 0x00 ∷ 0x00 ∷ 0x00 ∷ 0x00 ∷ 0x18 ∷ 0x18 ∷ [])
    ∷ (0x2c, 0x00 ∷ 0x00 ∷ 0x00 ∷ 0x00 ∷ 0x00 ∷ 0x18 ∷ 0x18 ∷ 0x08 ∷ [])
    ∷ (0x30, 0x3c ∷ 0x46 ∷ 0x4a ∷ 0x52 ∷ 0x62 ∷ 0x62 ∷ 0x3c ∷ 0x00 ∷ [])
    ∷ (0x31, 0x18 ∷ 0x28 ∷ 0x08 ∷ 0x08 ∷ 0x08 ∷ 0x08 ∷ 0x3e ∷ 0x00 ∷ [])
    ∷ (0x32, 0x3c ∷ 0x42 ∷ 0x02 ∷ 0x3c ∷ 0x40 ∷ 0x40 ∷ 0x7e ∷ 0x00 ∷ [])
    ∷ (0x33, 0x3e ∷ 0x02 ∷ 0x02 ∷ 0x3e ∷ 0x02 ∷ 0x02 ∷ 0x3e ∷ 0x00 ∷ [])
    ∷ (0x34, 0x08 ∷ 0x18 ∷ 0x28 ∷ 0x48 ∷ 0x7e ∷ 0x08 ∷ 0x08 ∷ 0x00 ∷ [])
    ∷ (0x35, 0x7e ∷ 0x40 ∷ 0x40 ∷ 0x7c ∷ 0x02 ∷ 0x02 ∷ 0x7c ∷ 0x00 ∷ [])
    ∷ (0x36, 0x3c ∷ 0x40 ∷ 0x40 ∷ 0x7c ∷ 0x42 ∷ 0x42 ∷ 0x3c ∷ 0x00 ∷ [])
    ∷ (0x37, 0x7e ∷ 0x02 ∷ 0x04 ∷ 0x08 ∷ 0x10 ∷ 0x10 ∷ 0x10 ∷ 0x00 ∷ [])
    ∷ (0x38, 0x3c ∷ 0x42 ∷ 0x42 ∷ 0x3c ∷ 0x42 ∷ 0x42 ∷ 0x3c ∷ 0x00 ∷ [])
    ∷ (0x39, 0x3c ∷ 0x42 ∷ 0x42 ∷ 0x3e ∷ 0x02 ∷ 0x02 ∷ 0x3c ∷ 0x00 ∷ [])
    ∷ (0x41, 0x18 ∷ 0x3c ∷ 0x42 ∷ 0x42 ∷ 0x7e ∷ 0x42 ∷ 0x42 ∷ 0x00 ∷ [])
    ∷ (0x42, 0x7c ∷ 0x42 ∷ 0x42 ∷ 0x7c ∷ 0x42 ∷ 0x42 ∷ 0x7c ∷ 0x00 ∷ [])
    ∷ (0x43, 0x3c ∷ 0x42 ∷ 0x40 ∷ 0x40 ∷ 0x40 ∷ 0x42 ∷ 0x3c ∷ 0x00 ∷ [])
    ∷ (0x44, 0x78 ∷ 0x44 ∷ 0x42 ∷ 0x42 ∷ 0x42 ∷ 0x44 ∷ 0x78 ∷ 0x00 ∷ [])
    ∷ (0x45, 0x7e ∷ 0x40 ∷ 0x40 ∷ 0x78 ∷ 0x40 ∷ 0x40 ∷ 0x7e ∷ 0x00 ∷ [])
    ∷ (0x46, 0x7e ∷ 0x40 ∷ 0x40 ∷ 0x78 ∷ 0x40 ∷ 0x40 ∷ 0x40 ∷ 0x00 ∷ [])
    ∷ (0x47, 0x3c ∷ 0x42 ∷ 0x40 ∷ 0x4e ∷ 0x42 ∷ 0x42 ∷ 0x3c ∷ 0x00 ∷ [])
    ∷ (0x48, 0x42 ∷ 0x42 ∷ 0x42 ∷ 0x7e ∷ 0x42 ∷ 0x42 ∷ 0x42 ∷ 0x00 ∷ [])
    ∷ (0x49, 0x3c ∷ 0x08 ∷ 0x08 ∷ 0x08 ∷ 0x08 ∷ 0x08 ∷ 0x3c ∷ 0x00 ∷ [])
    ∷ (0x4a, 0x1e ∷ 0x02 ∷ 0x02 ∷ 0x02 ∷ 0x02 ∷ 0x42 ∷ 0x3c ∷ 0x00 ∷ [])
    ∷ (0x4b, 0x42 ∷ 0x44 ∷ 0x48 ∷ 0x70 ∷ 0x48 ∷ 0x44 ∷ 0x42 ∷ 0x00 ∷ [])
    ∷ (0x4c, 0x40 ∷ 0x40 ∷ 0x40 ∷ 0x40 ∷ 0x40 ∷ 0x40 ∷ 0x7e ∷ 0x00 ∷ [])
    ∷ (0x4d, 0x42 ∷ 0x66 ∷ 0x5a ∷ 0x52 ∷ 0x42 ∷ 0x42 ∷ 0x42 ∷ 0x00 ∷ [])
    ∷ (0x4e, 0x42 ∷ 0x62 ∷ 0x52 ∷ 0x4a ∷ 0x46 ∷ 0x42 ∷ 0x42 ∷ 0x00 ∷ [])
    ∷ (0x4f, 0x3c ∷ 0x42 ∷ 0x42 ∷ 0x42 ∷ 0x42 ∷ 0x42 ∷ 0x3c ∷ 0x00 ∷ [])
    ∷ (0x50, 0x7c ∷ 0x42 ∷ 0x42 ∷ 0x7c ∷ 0x40 ∷ 0x40 ∷ 0x40 ∷ 0x00 ∷ [])
    ∷ (0x51, 0x3c ∷ 0x42 ∷ 0x42 ∷ 0x42 ∷ 0x4a ∷ 0x44 ∷ 0x3a ∷ 0x00 ∷ [])
    ∷ (0x52, 0x7c ∷ 0x42 ∷ 0x42 ∷ 0x7c ∷ 0x48 ∷ 0x44 ∷ 0x42 ∷ 0x00 ∷ [])
    ∷ (0x53, 0x3c ∷ 0x42 ∷ 0x40 ∷ 0x3c ∷ 0x02 ∷ 0x42 ∷ 0x3c ∷ 0x00 ∷ [])
    ∷ (0x54, 0x7e ∷ 0x18 ∷ 0x18 ∷ 0x18 ∷ 0x18 ∷ 0x18 ∷ 0x18 ∷ 0x00 ∷ [])
    ∷ (0x55, 0x42 ∷ 0x42 ∷ 0x42 ∷ 0x42 ∷ 0x42 ∷ 0x42 ∷ 0x3c ∷ 0x00 ∷ [])
    ∷ (0x56, 0x42 ∷ 0x42 ∷ 0x42 ∷ 0x42 ∷ 0x42 ∷ 0x24 ∷ 0x18 ∷ 0x00 ∷ [])
    ∷ (0x57, 0x42 ∷ 0x42 ∷ 0x42 ∷ 0x52 ∷ 0x5a ∷ 0x66 ∷ 0x42 ∷ 0x00 ∷ [])
    ∷ (0x58, 0x42 ∷ 0x42 ∷ 0x24 ∷ 0x18 ∷ 0x24 ∷ 0x42 ∷ 0x42 ∷ 0x00 ∷ [])
    ∷ (0x59, 0x42 ∷ 0x42 ∷ 0x24 ∷ 0x18 ∷ 0x18 ∷ 0x18 ∷ 0x18 ∷ 0x00 ∷ [])
    ∷ (0x5a, 0x7e ∷ 0x02 ∷ 0x04 ∷ 0x08 ∷ 0x10 ∷ 0x20 ∷ 0x7e ∷ 0x00 ∷ [])
    ∷ (0x61, 0x00 ∷ 0x00 ∷ 0x3c ∷ 0x02 ∷ 0x3e ∷ 0x42 ∷ 0x3e ∷ 0x00 ∷ [])
    ∷ (0x62, 0x40 ∷ 0x40 ∷ 0x7c ∷ 0x42 ∷ 0x42 ∷ 0x42 ∷ 0x7c ∷ 0x00 ∷ [])
    ∷ (0x63, 0x00 ∷ 0x00 ∷ 0x3c ∷ 0x40 ∷ 0x40 ∷ 0x42 ∷ 0x3c ∷ 0x00 ∷ [])
    ∷ (0x64, 0x02 ∷ 0x02 ∷ 0x3e ∷ 0x42 ∷ 0x42 ∷ 0x42 ∷ 0x3e ∷ 0x00 ∷ [])
    ∷ (0x65, 0x00 ∷ 0x00 ∷ 0x3c ∷ 0x42 ∷ 0x7e ∷ 0x40 ∷ 0x3c ∷ 0x00 ∷ [])
    ∷ (0x66, 0x1c ∷ 0x22 ∷ 0x20 ∷ 0x7c ∷ 0x20 ∷ 0x20 ∷ 0x20 ∷ 0x00 ∷ [])
    ∷ (0x67, 0x00 ∷ 0x3e ∷ 0x42 ∷ 0x42 ∷ 0x3e ∷ 0x02 ∷ 0x3c ∷ 0x00 ∷ [])
    ∷ (0x68, 0x40 ∷ 0x40 ∷ 0x7c ∷ 0x42 ∷ 0x42 ∷ 0x42 ∷ 0x42 ∷ 0x00 ∷ [])
    ∷ (0x69, 0x08 ∷ 0x00 ∷ 0x18 ∷ 0x08 ∷ 0x08 ∷ 0x08 ∷ 0x1c ∷ 0x00 ∷ [])
    ∷ (0x6a, 0x04 ∷ 0x00 ∷ 0x0c ∷ 0x04 ∷ 0x04 ∷ 0x44 ∷ 0x38 ∷ 0x00 ∷ [])
    ∷ (0x6b, 0x40 ∷ 0x40 ∷ 0x44 ∷ 0x48 ∷ 0x70 ∷ 0x48 ∷ 0x44 ∷ 0x00 ∷ [])
    ∷ (0x6c, 0x18 ∷ 0x08 ∷ 0x08 ∷ 0x08 ∷ 0x08 ∷ 0x08 ∷ 0x1c ∷ 0x00 ∷ [])
    ∷ (0x6d, 0x00 ∷ 0x00 ∷ 0x7c ∷ 0x52 ∷ 0x52 ∷ 0x52 ∷ 0x52 ∷ 0x00 ∷ [])
    ∷ (0x6e, 0x00 ∷ 0x00 ∷ 0x7c ∷ 0x42 ∷ 0x42 ∷ 0x42 ∷ 0x42 ∷ 0x00 ∷ [])
    ∷ (0x6f, 0x00 ∷ 0x00 ∷ 0x3c ∷ 0x42 ∷ 0x42 ∷ 0x42 ∷ 0x3c ∷ 0x00 ∷ [])
    ∷ (0x70, 0x00 ∷ 0x00 ∷ 0x7c ∷ 0x42 ∷ 0x42 ∷ 0x7c ∷ 0x40 ∷ 0x40 ∷ [])
    ∷ (0x71, 0x00 ∷ 0x00 ∷ 0x3e ∷ 0x42 ∷ 0x42 ∷ 0x3e ∷ 0x02 ∷ 0x02 ∷ [])
    ∷ (0x72, 0x00 ∷ 0x00 ∷ 0x5e ∷ 0x60 ∷ 0x40 ∷ 0x40 ∷ 0x40 ∷ 0x00 ∷ [])
    ∷ (0x73, 0x00 ∷ 0x00 ∷ 0x3e ∷ 0x40 ∷ 0x3c ∷ 0x02 ∷ 0x7c ∷ 0x00 ∷ [])
    ∷ (0x74, 0x20 ∷ 0x20 ∷ 0x7c ∷ 0x20 ∷ 0x20 ∷ 0x22 ∷ 0x1c ∷ 0x00 ∷ [])
    ∷ (0x75, 0x00 ∷ 0x00 ∷ 0x42 ∷ 0x42 ∷ 0x42 ∷ 0x46 ∷ 0x3a ∷ 0x00 ∷ [])
    ∷ (0x76, 0x00 ∷ 0x00 ∷ 0x42 ∷ 0x42 ∷ 0x42 ∷ 0x24 ∷ 0x18 ∷ 0x00 ∷ [])
    ∷ (0x77, 0x00 ∷ 0x00 ∷ 0x42 ∷ 0x42 ∷ 0x52 ∷ 0x5a ∷ 0x24 ∷ 0x00 ∷ [])
    ∷ (0x78, 0x00 ∷ 0x00 ∷ 0x42 ∷ 0x24 ∷ 0x18 ∷ 0x24 ∷ 0x42 ∷ 0x00 ∷ [])
    ∷ (0x79, 0x00 ∷ 0x00 ∷ 0x42 ∷ 0x42 ∷ 0x3e ∷ 0x02 ∷ 0x3c ∷ 0x00 ∷ [])
    ∷ (0x7a, 0x00 ∷ 0x00 ∷ 0x7e ∷ 0x08 ∷ 0x10 ∷ 0x20 ∷ 0x7e ∷ 0x00 ∷ [])
    ∷ []

-- The rows of a character; one without an initializer is blank.
abbrev rows_of : List (ℕ × List ℕ) → ℕ → List ℕ
rows_of [] c = []
rows_of ((code, rows) ∷ others) c = if code == c then rows else rows_of others c

-- `font[c][y]`.
unfoldable pub font : ℕ → ℕ → ℕ
font c y = get_or (rows_of glyphs c) y 0
