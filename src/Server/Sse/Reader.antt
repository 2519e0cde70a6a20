-- ===== src/Server/Sse/Reader.antt =====
-- A client of the event stream, as the format prescribes it.
use proxa.Prelude.{Bool, true, false, not, ◌&&◌, List, [], ◌∷◌, ◌++◌, if◌then◌else◌, ◌==◌}
use proxa.Prelude.Text.{Text, codes, text_eq}
use proxa.Server.Sse.{newline, glue_first}

-- The lines of a stream: each ends at a newline, at a carriage return, or at both in this order.
unfoldable pub stream_lines : (after_cr : Bool) → Text → List Text
stream_lines after_cr [] = [] ∷ []
stream_lines after_cr (c ∷ s) =
    let plain = stream_lines false s in
    let past_cr = stream_lines true s in
    if c == b'\n'
    then (if after_cr then plain else [] ∷ plain)
    else if c == b'\r'
    then [] ∷ past_cr
    else glue_first plain (c ∷ [])

-- The value of a field, without one space in front.
abbrev without_space : Text → Text
without_space [] = []
without_space (c ∷ s) = if c == b' ' then s else c ∷ s

-- The name of a field, before the first colon, and its value.
unfoldable pub field_of : Text → Text × Text
field_of [] = ([], [])
field_of (c ∷ s) =
    let rest = field_of s in if c == b':' then ([], without_space s) else (c ∷ rest.0, rest.1)

-- The values of the fields with a name, up to the blank line that ends an event.
unfoldable pub values_of : Text → List Text → List Text
unfolding field_of
values_of name [] = []
values_of name ([] ∷ rest) = []
values_of name ((c ∷ s) ∷ rest) =
    let later = values_of name rest in
    let field = field_of (c ∷ s) in if text_eq field.0 name then field.1 ∷ later else later

unfoldable pub join_lines : List Text → Text
join_lines [] = []
join_lines (line ∷ []) = line
join_lines (line ∷ next ∷ rest) = line ++ newline ++ join_lines (next ∷ rest)

-- The first event of a stream: the values of its event fields, and its data.
unfoldable pub read_event : Text → List Text × Text
unfolding values_of join_lines stream_lines
read_event stream =
    let ls = stream_lines false stream in
    (values_of (codes "event") ls, join_lines (values_of (codes "data") ls))

abbrev pub no_cr : Text → Bool
no_cr [] = true
no_cr (c ∷ s) = not (c == b'\r') && no_cr s

abbrev pub is_one_line : Text → Bool
is_one_line [] = true
is_one_line (c ∷ s) = not (c == b'\n') && is_one_line s

abbrev pub all_lines : List Text → Bool
all_lines [] = true
all_lines (l ∷ ls) = is_one_line l && all_lines ls
