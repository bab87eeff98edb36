-- ===== src/ChatRoom/Client/Heard.antt =====
-- What a client prints of the entries that the server it is connected to applies.
use raft_demo.Base.{
  ℕ, ◌<◌, ◌≡◌, ◌≢◌, refl, sym, ap, ◌∙◌, false, some, List, [], ◌∷◌, ◌++◌, append_assoc, Bytes, dash,
  newline, length, length-append, Lacks, Lacks-append, All, arith,
}
use raft_demo.Go.Strings.{join}
use raft_demo.Go.Strconv.{itoa}
use raft_demo.Go.Strconv.Laws.{itoa-Lacks}
use raft_demo.Pb.{Log}
use raft_demo.Kvstore.Sessions.{lines}
use raft_demo.Kvstore.Sessions.Framing.{lines-Lacks}
use raft_demo.ChatRoom.Queue.{MessageQueue, returned, contains, new_mq}
use raft_demo.ChatRoom.Server.{Session, Server, broadcast_text, sent_by, long_lines, read}
use raft_demo.ChatRoom.Server.Broadcasts.{
  Event, commit, join_event, run, texts, joined, extend, IsOpen, run-extend,
}
use raft_demo.ChatRoom.Client.{consume_all}
use raft_demo.ChatRoom.Client.Complete.{consume_all-contains}

-- A line that a client has typed, with its newline.
abbrev pub IsLine : Bytes → Type 0
IsLine s = (b : Bytes) × (s ≡ b ++ newline ∷ []) × Lacks newline b

-- The entries among the events are lines.
abbrev pub AllLines : List Event → Type 0
AllLines [] = Unit
AllLines (commit l ∷ es) = IsLine l.bytes × AllLines es
AllLines (join_event ∷ es) = AllLines es

read-line_text :
    (b rest : Bytes)
    → Lacks newline b
    → 0 < length b
    → read (b ++ newline ∷ rest) ≡ (b ++ newline ∷ []) ∷ read rest
unfolding read long_lines
read-line_text b rest h l = ground (arith, lines-Lacks [] b rest h, length-append b (newline ∷ []))

read-broadcast_text :
    (l : Log) (rest : Bytes)
    → IsLine l.bytes
    → read (broadcast_text l ++ rest) ≡ broadcast_text l ∷ read rest
unfolding broadcast_text join
read-broadcast_text l rest (b, e, h) =
    let text = itoa l.index ++ (dash ∷ b) in
    let one_line : Lacks newline text =
      Lacks-append newline (itoa l.index) (dash ∷ b) (itoa-Lacks newline refl l.index)
        ((λ q. omega arith), h) in
    let laid : broadcast_text l ≡ text ++ newline ∷ [] =
      rw e (sym (append_assoc (itoa l.index) (dash ∷ b) (newline ∷ []))) in
    let long : 0 < length text = omega (arith, length-append (itoa l.index) (dash ∷ b)) in
    ap (λ (t : Bytes). read (t ++ rest)) laid
    ∙ ap read (append_assoc text (newline ∷ []) rest)
    ∙ read-line_text text rest one_line long
    ∙ ap (λ (t : Bytes). t ∷ read rest) (sym laid)

read-sent_by : (es : List Event) → AllLines es → read (sent_by (texts es)) ≡ texts es
unfolding sent_by texts
read-sent_by [] h = unfold read lines long_lines in refl
read-sent_by (commit l ∷ es) (h, hs) =
    read-broadcast_text l (sent_by (texts es)) h
    ∙ ap (λ (ts : List Bytes). broadcast_text l ∷ ts) (read-sent_by es hs)
read-sent_by (join_event ∷ es) h = read-sent_by es h

-- Take a server whose sessions are open, a client that joins it, and what happens behind that, where
-- every committed entry is a line. The server does not panic, and has a session for the client. Of
-- the bytes that this session sends, the client, with a new queue that is not empty, prints a text
-- exactly if it is the text of an entry that was committed after the client joined, in whatever
-- order entries and other clients come.
pub consume_all-run :
    (s : Server) (es : List Event) (size : ℕ) (text : Bytes)
    → All IsOpen s.clients
    → AllLines es
    → 0 < size
    → text ≢ []
    → (before : List Session) × (c : Session) × (later : List Session) × (mq : MessageQueue)
      × (out : List Bytes) × (run s (join_event ∷ es)
          ≡ some (record s { clients = before ++ c ∷ later }))
      × (consume_all (new_mq size false) (read (sent_by c.written)) ≡ returned mq out)
      × (contains out text ≡ contains (texts es) text)
consume_all-run s es size text opened typed_lines h some_text =
    let (mq, out, ran, same) = consume_all-contains size (texts es) text h some_text in
    (
      extend s.clients (texts es),
      record { written = texts es; closed = false },
      joined es,
      mq,
      out,
      (unfold texts joined in run-extend s (join_event ∷ es) opened),
      ap (consume_all (new_mq size false)) (read-sent_by es typed_lines) ∙ ran,
      same,
    )
