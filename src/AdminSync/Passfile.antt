-- ===== src/AdminSync/Passfile.antt =====
-- The credential file of internal/adminsync/sidecar_server.go: `pgpassEscape`, `pgpassLine` and the
-- content that `writePassfile` and `writeLegacyPassfile` render.
pub mod Reader
use pg_tool_box.Common.{ℕ, List, [], ◌∷◌, ◌++◌, Text, codes, ◌==◌, nat_eq, if◌then◌else◌}
use pg_tool_box.Common.Decimal.{format_int}
use pg_tool_box.Common.Int.{ℤ}
use pg_tool_box.Config.{is_empty}

-- `Server` of internal/adminsync/adminsync.go
pub record Server : Type 0 where
  pub name : Text
  pub group : Text
  pub host : Text
  pub port : ℤ
  pub maintenance_db : Text
  pub username : Text
  pub pass_file : Text
  pub ssl_mode : Text
  pub password : Text

-- `strings.ReplaceAll` of a text of one byte
unfoldable pub replace_byte : ℕ → Text → Text → Text
replace_byte old new [] = []
replace_byte old new (c ∷ s) =
    let rest = replace_byte old new s in if c == old then new ++ rest else c ∷ rest

unfoldable pub pgpass_escape : Text → Text
unfolding replace_byte
pgpass_escape s = replace_byte b':' (codes "\\:") (replace_byte b'\\' (codes "\\\\") s)

-- `pgpassAnyHost`
abbrev pub pgpass_any_host : Text
pgpass_any_host = codes "*"

unfoldable pub pgpass_line : Text → ℤ → Text → Text → Text → Text
pgpass_line host port database username password =
    pgpass_escape host
    ++ (b':'
        ∷ (format_int port
            ++ (b':'
                ∷ (pgpass_escape database
                    ++ (b':' ∷ (pgpass_escape username ++ (b':' ∷ pgpass_escape password)))))))

abbrev pub line_of : Server → Text
line_of s = pgpass_line pgpass_any_host s.port s.maintenance_db s.username s.password

-- `strings.Join(lines, "\n")`, with a line end behind it unless it is empty
unfoldable pub join_lines : List Text → Text
join_lines [] = []
join_lines (l ∷ []) = l
join_lines (l ∷ m ∷ rest) = l ++ b'\n' ∷ join_lines (m ∷ rest)

unfoldable pub end_line : Text → Text
end_line content = if is_empty content then content else content ++ b'\n' ∷ []

unfoldable pub lines_of : List Server → List Text
lines_of [] = []
lines_of (s ∷ rest) = line_of s ∷ lines_of rest

unfoldable pub passfile_content : List Server → Text
passfile_content servers = end_line (join_lines (lines_of servers))
