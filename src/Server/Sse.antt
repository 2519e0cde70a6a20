-- ===== src/Server/Sse.antt =====
-- internal/server/sse.go: the frames of an event stream and the lines of a plain one, as the bytes that are
-- written.
pub mod RoundTrip
pub mod Reader
use proxa.Prelude.{Bool, true, false, List, [], ◌∷◌, ◌++◌, if◌then◌else◌, is_nil, ◌==◌}
use proxa.Prelude.Text.{Text, codes}

abbrev pub newline : Text
newline = b'\n' ∷ []

abbrev glue_first : List Text → Text → List Text
glue_first [] word = word ∷ []
glue_first (w ∷ ws) word = (word ++ w) ∷ ws

-- `strings.Split` at a newline: always at least one part.
pub split_lines : Text → List Text
split_lines [] = [] ∷ []
split_lines (c ∷ s) =
    let parts = split_lines s in if c == b'\n' then [] ∷ parts else glue_first parts (c ∷ [])

pub data_fields : List Text → Text
data_fields [] = []
data_fields (line ∷ rest) = codes "data: " ++ line ++ newline ++ data_fields rest

-- `writeSSEEvent`
unfoldable pub write_sse_event : (event payload : Text) → Text
unfolding split_lines data_fields
write_sse_event event payload =
    (if is_nil event then [] else codes "event: " ++ event ++ newline)
    ++ data_fields (split_lines payload)
    ++ newline

-- `writeSSEData`
unfoldable pub write_sse_data : Text → Text
write_sse_data line = codes "data: " ++ line ++ newline ++ newline

-- `writePlainLine`
unfoldable pub write_plain_line : Text → Text
write_plain_line line = line ++ newline
