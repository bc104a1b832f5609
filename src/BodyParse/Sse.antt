-- ===== src/BodyParse/Sse.antt =====
-- `parseSSE` of daemon/internal/bodyparse/bodyparse.go: server-sent events.
pub mod Lines
pub mod RoundTrip
use deconstruct.Base.{
  Text, codes, Bool, true, false, not, ◌||◌, List, [], ◌∷◌, ◌++◌, ◌==◌, text_eq, is_empty,
  has_prefix, trim_prefix, trim_right, split_on, cut, if◌then◌else◌,
}

-- `content` is the field Data
pub record SseEvent : Type 0 where
  pub event : Text
  pub id : Text
  pub content : Text

abbrev pub no_event : SseEvent
no_event = record { event = []; id = []; content = [] }

-- the line feed between the lines of the data
abbrev pub glue : Text → Text
glue [] = []
glue (c ∷ s) = (c ∷ s) ++ (10 ∷ [])

-- the switch on the name of a field
unfoldable pub set_field : Text → Text → SseEvent → SseEvent
set_field key value current =
    if text_eq key (codes "event")
    then record current { event = value }
    else if text_eq key (codes "id")
    then record current { id = value }
    else if text_eq key (codes "data")
    then record current { content = glue current.content ++ value }
    else current

-- a line with a field
unfoldable pub read_field : Text → SseEvent → SseEvent
read_field line current =
    let (key, value, found) = cut b':' line in
    set_field key (if found then trim_prefix value (codes " ") else value) current

abbrev pub has_content : SseEvent → Bool
has_content e = not (is_empty e.event) || (not (is_empty e.id) || not (is_empty e.content))

unfoldable pub flush : SseEvent → List SseEvent → List SseEvent
flush current events = if has_content current then events ++ (current ∷ []) else events

-- `strings.TrimRight(line, "\r")`
unfoldable pub trim_return : Text → Text
trim_return line = trim_right (λ c. c == 13) line

-- the loop over the lines
unfoldable pub read_lines : List Text → List SseEvent → SseEvent → List SseEvent
read_lines [] events current = flush current events
read_lines (raw ∷ lines) events current =
    let line = trim_return raw in
    let closed = read_lines lines (flush current events) no_event in
    let skipped = read_lines lines events current in
    let set = read_lines lines events (read_field line current) in
    if is_empty line then closed else if has_prefix line (codes ":") then skipped else set

unfoldable pub parse_sse : Text → List SseEvent
parse_sse text = read_lines (split_on 10 text) [] no_event
