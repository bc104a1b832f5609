-- ===== src/BodyParse/Sse/Lines.antt =====
-- What a server writes, line by line, and how the lines are read.
use deconstruct.Base.{
  ℕ, Text, codes, false, inl, inr, Bool-cases, if◌then◌else◌, List, [], ◌∷◌, ◌++◌, append_assoc,
  has_prefix, trim_prefix, trim_right, join, All, All-append, ◌≡◌, ◌≢◌, refl, ap, ◌∙◌, arith,
}
use deconstruct.Base.Strings.Laws.{Lacks, cut-append}
use deconstruct.BodyParse.Sse.{
  SseEvent, no_event, glue, set_field, read_field, has_content, flush, trim_return, read_lines,
}

-- what a server sends: a name, an identifier and the lines of the data
pub record Message : Type 0 where
  pub event : Text
  pub id : Text
  pub lines : List Text

-- one field on a line
abbrev pub field_line : Text → Text → Text
field_line key value = key ++ (b':' ∷ (b' ' ∷ value))

abbrev pub optional_line : Text → Text → List Text
optional_line key [] = []
optional_line key (c ∷ value) = field_line key (c ∷ value) ∷ []

abbrev pub data_lines : List Text → List Text
data_lines [] = []
data_lines (l ∷ ls) = field_line (codes "data") l ∷ data_lines ls

unfoldable pub message_lines : Message → List Text
message_lines m =
    optional_line (codes "event") m.event
    ++ (optional_line (codes "id") m.id ++ (data_lines m.lines ++ ([] ∷ [])))

unfoldable pub stream_lines : List Message → List Text
stream_lines [] = []
stream_lines (m ∷ ms) = message_lines m ++ stream_lines ms

-- lines that all end in a line feed
unfoldable pub unlines : List Text → Text
unlines [] = []
unlines (l ∷ ls) = l ++ (10 ∷ unlines ls)

unfoldable pub print_sse : List Message → Text
print_sse ms = unlines (stream_lines ms)

-- the lines of data from the first that is not empty on: the lines before it are lost
unfoldable pub drop_empty : List Text → List Text
drop_empty [] = []
drop_empty ([] ∷ ls) = drop_empty ls
drop_empty ((c ∷ l) ∷ ls) = (c ∷ l) ∷ ls

unfoldable pub meant : Message → SseEvent
meant m = record { event = m.event; id = m.id; content = join (10 ∷ []) (drop_empty m.lines) }

-- the events that say something
unfoldable pub kept : List SseEvent → List SseEvent
kept [] = []
kept (e ∷ es) = if has_content e then e ∷ kept es else kept es

-- a text without line feeds and carriage returns
abbrev pub IsLine : Text → Type 0
IsLine s = Lacks 10 s × Lacks 13 s

-- a message of whole lines
abbrev pub IsMessage : Message → Type 0
IsMessage m = IsLine m.event × IsLine m.id × All IsLine m.lines

trim_return-IsLine : (s : Text) → Lacks 13 s → trim_return s ≡ s
unfolding trim_return trim_right
trim_return-IsLine [] h = refl
trim_return-IsLine (c ∷ s) (hc, h) = ground (arith, trim_return-IsLine s h)

read_field-line :
    (key value : Text) (current : SseEvent)
    → Lacks b':' key
    → read_field (field_line key value) current ≡ set_field key value current
unfolding read_field trim_prefix has_prefix
read_field-line key value current h = rw (cut-append b':' key (b' ' ∷ value) h)

no_comment : (c : ℕ) (s : Text) → c ≢ b':' → has_prefix (c ∷ s) (codes ":") ≡ false
unfolding has_prefix
no_comment c s h = ground arith

read_lines-line :
    (key value : Text) (lines : List Text) (events : List SseEvent) (current : SseEvent)
    → Lacks b':' key
    → Lacks 13 key
    → key ≢ []
    → Lacks 13 value
    → read_lines (field_line key value ∷ lines) events current
      ≡ read_lines lines events (set_field key value current)
unfolding read_lines has_prefix
read_lines-line [] value lines events current h r n v = absurd (n refl)
read_lines-line (c ∷ key) value lines events current (hc, h) r n v =
    let clean : Lacks 13 (field_line (c ∷ key) value) =
      All-append (λ x. x ≢ 13) (c ∷ key) _ r (omega arith, (omega arith, v)) in
    rw (
      trim_return-IsLine (field_line (c ∷ key) value) clean,
      no_comment c (key ++ (b':' ∷ (b' ' ∷ value))) hc,
      read_field-line (c ∷ key) value current (hc, h),
    )

unfoldable pub optional : Text → Text → SseEvent → SseEvent
optional key [] current = current
optional key (c ∷ value) current = set_field key (c ∷ value) current

pub read_lines-optional :
    (key value : Text) (lines : List Text) (events : List SseEvent) (current : SseEvent)
    → Lacks b':' key
    → Lacks 13 key
    → key ≢ []
    → Lacks 13 value
    → read_lines (optional_line key value ++ lines) events current
      ≡ read_lines lines events (optional key value current)
unfolding optional
read_lines-optional key [] lines events current h r n v = refl
read_lines-optional key (c ∷ value) lines events current h r n v =
    read_lines-line key (c ∷ value) lines events current h r n v

unfoldable pub gather : Text → List Text → Text
gather content [] = content
gather content (l ∷ ls) = gather (glue content ++ l) ls

pub read_lines-data :
    (ls lines : List Text) (events : List SseEvent) (current : SseEvent)
    → All IsLine ls
    → read_lines (data_lines ls ++ lines) events current
      ≡ read_lines lines events (record current { content = gather current.content ls })
unfolding gather set_field
read_lines-data [] lines events current h = refl
read_lines-data (l ∷ ls) lines events current (h, hs) =
    read_lines-line (codes "data") l (data_lines ls ++ lines) events current
      (omega arith, (omega arith, (omega arith, (omega arith, tt))))
      (omega arith, (omega arith, (omega arith, (omega arith, tt)))) (ground arith) h.1
    ∙ read_lines-data ls lines events (record current { content = glue current.content ++ l }) hs

glue-append : (content l : Text) → content ≢ [] → glue content ++ l ≡ content ++ (10 ∷ l)
glue-append [] l n = absurd (n refl)
glue-append (c ∷ content) l n = append_assoc (c ∷ content) (10 ∷ []) l

gather-join :
    (content l : Text) (ls : List Text)
    → content ≢ []
    → gather content (l ∷ ls) ≡ content ++ (10 ∷ join (10 ∷ []) (l ∷ ls))
unfolding gather join
gather-join content l [] n = glue-append content l n
gather-join content l (m ∷ ls) n =
    ap (λ t. gather t (m ∷ ls)) (glue-append content l n)
    ∙ gather-join (content ++ (10 ∷ l)) m ls (full content)
    ∙ append_assoc content (10 ∷ l) (10 ∷ join (10 ∷ []) (m ∷ ls))
  where
    full : (s : Text) → s ++ (10 ∷ l) ≢ []
    full [] = ground arith
    full (c ∷ s) = ground arith

pub gather-drop_empty : (ls : List Text) → gather [] ls ≡ join (10 ∷ []) (drop_empty ls)
unfolding gather join drop_empty
gather-drop_empty [] = refl
gather-drop_empty ([] ∷ ls) = gather-drop_empty ls
gather-drop_empty ((c ∷ l) ∷ []) = refl
gather-drop_empty ((c ∷ l) ∷ m ∷ ls) = gather-join (c ∷ l) m ls (ground arith)

pub read_lines-blank :
    (lines : List Text) (events : List SseEvent) (current : SseEvent)
    → read_lines ([] ∷ lines) events current ≡ read_lines lines (flush current events) no_event
unfolding read_lines trim_return trim_right
read_lines-blank lines events current = refl

pub flush-kept :
    (e : SseEvent) (events es : List SseEvent) → flush e events ++ kept es ≡ events ++ kept (e ∷ es)
unfolding flush kept
flush-kept e events es = elim (Bool-cases (has_content e)) [
  | inl h ↦ rw (h) (append_assoc events (e ∷ []) (kept es))
  | inr h ↦ rw (h) refl
]
