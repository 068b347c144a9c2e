-- ===== src/Console/Names.antt =====
-- `BoundedName` and `ResourceName` of internal/controller/shared/application.go. `short_digest` is the
-- hex of the first four bytes of SHA-256. Names are ASCII, so that a byte is a character.
use pg_tool_box.Common.{Text, codes, ◌++◌, ℕ, ◌∷◌, length, take, leb, if◌then◌else◌}

abbrev pub max_resource_name_length : ℕ
max_resource_name_length = 63

abbrev pub truncated_name_stem : ℕ
truncated_name_stem = 54

unfoldable pub bounded_name : (Text → Text) → Text → Text → Text
bounded_name short_digest base suffix =
    let full_name = base ++ suffix in
    if leb (length full_name) max_resource_name_length
    then full_name
    else take truncated_name_stem full_name ++ b'-' ∷ short_digest full_name

-- `ResourceInfix` of `PgConsoleApplication`
abbrev pub resource_infix : Text
resource_infix = codes "-pgconsole"

unfoldable pub resource_name : (Text → Text) → Text → Text → Text
resource_name short_digest instance_name suffix =
    bounded_name short_digest instance_name (resource_infix ++ suffix)
