-- ===== src/Render.antt =====
-- internal/render/render.go: the checksum of the rendered files. The digest itself is a parameter, hex
-- of SHA-256; what is modelled is the text that goes into it.
pub mod Framing
pub mod Order
pub mod Canonical
use pg_tool_box.Common.{
  ℕ, zero, suc, ◌/◌, ◌%◌, List, [], ◌∷◌, ◌++◌, map, length, take, Text, codes, Option, none, some,
  if◌then◌else◌, text_lt, text_eq, ltb,
}
use pg_tool_box.Common.Dict

-- `binary.BigEndian.PutUint64`, for `width` bytes in place of eight.
unfoldable pub big_endian : ℕ → ℕ → Text
big_endian zero value = []
big_endian (suc width) value = big_endian width (value / 256) ++ value % 256 ∷ []

unfoldable pub write_checksum_uint64 : ℕ → Text
write_checksum_uint64 value = big_endian 8 value

unfoldable pub write_checksum_part : Text → Text
write_checksum_part value = write_checksum_uint64 (length value) ++ value

-- `sort.Strings`, by insertion.
unfoldable pub insert_string : Text → List Text → List Text
insert_string s [] = s ∷ []
insert_string s (t ∷ rest) =
    let later = insert_string s rest in if text_lt t s then t ∷ later else s ∷ (t ∷ rest)

unfoldable pub sort_strings : List Text → List Text
sort_strings [] = []
sort_strings (s ∷ rest) = insert_string s (sort_strings rest)

abbrev pub key_list : List (Text × Text) → List Text
key_list [] = []
key_list ((key, value) ∷ m) = key ∷ key_list m

-- The loop over the sorted keys.
unfoldable pub write_entries : List (Text × Text) → List Text → Text
write_entries m [] = []
write_entries m (key ∷ keys) =
    write_checksum_part key ++ (write_checksum_part (Dict.value_at key m) ++ write_entries m keys)

unfoldable pub write_checksum_map : List (Text × Text) → Text
write_checksum_map m =
    write_checksum_uint64 (length (key_list m)) ++ write_entries m (sort_strings (key_list m))

-- What `Checksum` writes to the digest.
unfoldable pub canonical : List (Text × Text) → Text
canonical rendered =
    write_checksum_part (codes "pgtoolbox-checksum-v1") ++ write_checksum_map rendered

unfoldable pub checksum : (Text → Text) → List (Text × Text) → Text
checksum hex_digest rendered = hex_digest (canonical rendered)

unfoldable pub config_revision : Text → Text
config_revision sum = codes "cfg-" ++ (if ltb 8 (length sum) then take 8 sum else sum)
