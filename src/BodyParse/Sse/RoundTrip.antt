-- ===== src/BodyParse/Sse/RoundTrip.antt =====
-- An event stream that a server writes is read back.
use deconstruct.Base.{
  Text, codes, List, [], ◌∷◌, ◌++◌, map, append_assoc, append-nil, trim_right, split_on, All,
  All-append, ◌≡◌, ◌≢◌, refl, sym, ap, ◌∙◌, arith,
}
use deconstruct.Base.Strings.Laws.{Lacks, split_on_first}
use deconstruct.BodyParse.Sse.{
  SseEvent, no_event, set_field, flush, trim_return, read_lines, parse_sse,
}
use deconstruct.BodyParse.Sse.Lines.{
  Message, field_line, optional_line, data_lines, message_lines, stream_lines, unlines, print_sse,
  meant, kept, IsLine, IsMessage, optional, read_lines-optional, gather, read_lines-data,
  gather-drop_empty, read_lines-blank, flush-kept,
}

abbrev named : Text → Text → SseEvent
named event id = optional (codes "id") id (optional (codes "event") event no_event)

built :
    (event id : Text) (ls : List Text)
    → record (named event id) { content = gather (named event id).content ls }
      ≡ meant (record { event = event; id = id; lines = ls })
unfolding meant optional set_field
built [] [] ls = ap (λ t. record no_event { content = t }) (gather-drop_empty ls)
built [] (d ∷ id) ls = ap (λ t. record no_event { id = d ∷ id; content = t }) (gather-drop_empty ls)
built (c ∷ event) [] ls =
    ap (λ t. record no_event { event = c ∷ event; content = t }) (gather-drop_empty ls)
built (c ∷ event) (d ∷ id) ls =
    ap (λ t. record { event = c ∷ event; id = d ∷ id; content = t }) (gather-drop_empty ls)

regroup :
    (a b c d : List Text) (lines : List Text)
    → (a ++ (b ++ (c ++ d))) ++ lines ≡ a ++ (b ++ (c ++ (d ++ lines)))
regroup a b c d lines =
    append_assoc a (b ++ (c ++ d)) lines
    ∙ ap (λ t. a ++ t) (append_assoc b (c ++ d) lines ∙ ap (λ t. b ++ t) (append_assoc c d lines))

read_lines-message :
    (m : Message) (lines : List Text) (events : List SseEvent)
    → IsMessage m
    → read_lines (message_lines m ++ lines) events no_event
      ≡ read_lines lines (flush (meant m) events) no_event
unfolding message_lines
read_lines-message m lines events (e, i, ls) =
    let done = built m.event m.id m.lines in
    ap (λ x. read_lines x events no_event)
      (regroup (optional_line (codes "event") m.event) (optional_line (codes "id") m.id)
        (data_lines m.lines) ([] ∷ []) lines)
    ∙ read_lines-optional (codes "event") m.event
        (optional_line (codes "id") m.id ++ (data_lines m.lines ++ ([] ∷ lines))) events no_event
        (omega arith, (omega arith, (omega arith, (omega arith, (omega arith, tt)))))
        (omega arith, (omega arith, (omega arith, (omega arith, (omega arith, tt))))) (ground arith)
        e.1
    ∙ read_lines-optional (codes "id") m.id (data_lines m.lines ++ ([] ∷ lines)) events
        (optional (codes "event") m.event no_event) (omega arith, (omega arith, tt))
        (omega arith, (omega arith, tt)) (ground arith) i.1
    ∙ read_lines-data m.lines ([] ∷ lines) events (named m.event m.id) ls
    ∙ ap (read_lines ([] ∷ lines) events) done
    ∙ read_lines-blank lines events (meant m)

read_lines-end : (events : List SseEvent) → read_lines ([] ∷ []) events no_event ≡ events ++ kept []
unfolding read_lines trim_return trim_right flush kept
read_lines-end events = sym (append-nil events)

read_lines-stream :
    (ms : List Message) (events : List SseEvent)
    → All IsMessage ms
    → read_lines (stream_lines ms ++ ([] ∷ [])) events no_event ≡ events ++ kept (map meant ms)
unfolding stream_lines
read_lines-stream [] events h = read_lines-end events
read_lines-stream (m ∷ ms) events (h, hs) =
    ap (λ x. read_lines x events no_event)
      (append_assoc (message_lines m) (stream_lines ms) ([] ∷ []))
    ∙ read_lines-message m (stream_lines ms ++ ([] ∷ [])) events h
    ∙ read_lines-stream ms (flush (meant m) events) hs
    ∙ flush-kept (meant m) events (map meant ms)

split_on-unlines : (ls : List Text) → All (Lacks 10) ls → split_on 10 (unlines ls) ≡ ls ++ ([] ∷ [])
unfolding unlines split_on
split_on-unlines [] h = refl
split_on-unlines (l ∷ ls) (h, hs) =
    split_on_first 10 l (unlines ls) h ∙ ap (λ x. l ∷ x) (split_on-unlines ls hs)

field_line-Lacks :
    (key value : Text) → Lacks 10 key → Lacks 10 value → Lacks 10 (field_line key value)
field_line-Lacks key value h v = All-append (λ c. c ≢ 10) key _ h (omega arith, (omega arith, v))

optional_line-Lacks :
    (key value : Text) → Lacks 10 key → Lacks 10 value → All (Lacks 10) (optional_line key value)
optional_line-Lacks key [] h v = tt
optional_line-Lacks key (c ∷ value) h v = (field_line-Lacks key (c ∷ value) h v, tt)

data_lines-Lacks : (ls : List Text) → All IsLine ls → All (Lacks 10) (data_lines ls)
data_lines-Lacks [] h = tt
data_lines-Lacks (l ∷ ls) (h, hs) = (
  field_line-Lacks (codes "data") l (omega arith, (omega arith, (omega arith, (omega arith, tt))))
      h.0,
  data_lines-Lacks ls hs,
)

stream_lines-Lacks : (ms : List Message) → All IsMessage ms → All (Lacks 10) (stream_lines ms)
unfolding stream_lines message_lines
stream_lines-Lacks [] h = tt
stream_lines-Lacks (m ∷ ms) ((e, i, ls), hs) =
    All-append (Lacks 10) (message_lines m) _
      (All-append (Lacks 10) (optional_line (codes "event") m.event) _
        (optional_line-Lacks (codes "event") m.event
          (omega arith, (omega arith, (omega arith, (omega arith, (omega arith, tt))))) e.0)
        (All-append (Lacks 10) (optional_line (codes "id") m.id) _
          (optional_line-Lacks (codes "id") m.id (omega arith, (omega arith, tt)) i.0)
          (All-append (Lacks 10) (data_lines m.lines) _ (data_lines-Lacks m.lines ls) (tt, tt))))
      (stream_lines-Lacks ms hs)

-- A stream of messages that a server writes is read back, if no name, identifier or line of data holds
-- a line feed or carriage return: in their order the messages that say something, each with its name, its
-- identifier and the lines of its data from the first that is not empty on. The empty lines before it are
-- lost, and so is a message that has nothing else.
pub parse_sse-print_sse :
    (ms : List Message) → All IsMessage ms → parse_sse (print_sse ms) ≡ kept (map meant ms)
unfolding parse_sse print_sse
parse_sse-print_sse ms h =
    ap (λ x. read_lines x [] no_event)
      (split_on-unlines (stream_lines ms) (stream_lines-Lacks ms h))
    ∙ read_lines-stream ms [] h
