-- ===== src/Client/Main/Asked.antt =====
-- What the replicas read of the lines that are typed at the client, and what it prints.
use raft_demo.Base.{
  ℕ, zero, suc, ◌≤◌, ◌≡◌, refl, ap, ◌∙◌, Bool, true, false, Option, List, [], ◌∷◌, ◌++◌,
  append_assoc, append-nil, Bytes, codes, dash, newline, length, length-append, Lacks, Lacks-append,
  All, arith, Bool-cases, inl, inr, if◌then◌else◌,
}
use raft_demo.Go.Strings.{has_prefix}
use raft_demo.Go.Strconv.{itoa}
use raft_demo.Go.Strconv.Laws.{itoa-Lacks}
use raft_demo.Client.Commands.{Conn}
use raft_demo.Client.Connect.{done, write_each}
use raft_demo.Client.Connect.Replicas.{told}
use raft_demo.Kvstore.Sessions.{lines, to_requests, read}
use raft_demo.Kvstore.Sessions.Framing.{read-line, requests_of}
use raft_demo.Client.Main.{
  Session, exited, typing, disconnect, print, reply_of, message_of, main_loop,
}

abbrev pub typed : Bytes → Bytes
typed s = s ++ newline ∷ []

unfoldable pub map_typed : List Bytes → List Bytes
map_typed [] = []
map_typed (s ∷ ls) = typed s ∷ map_typed ls

-- the lines in front of the first that starts with "exit"
unfoldable pub until_exit : List Bytes → List Bytes
until_exit [] = []
until_exit (s ∷ ls) =
    let later = until_exit ls in if has_prefix (typed s) (codes "exit") then [] else s ∷ later

unfoldable pub has_exit : List Bytes → Bool
has_exit [] = false
has_exit (s ∷ ls) =
    let later = has_exit ls in if has_prefix (typed s) (codes "exit") then true else later

module _ (port : ℕ) where
  -- what a connection carries for the lines
  unfoldable pub stream_of : List Bytes → Bytes
  stream_of [] = []
  stream_of (l ∷ ls) = message_of port (typed l ++ newline ∷ []) ++ stream_of ls

  unfoldable pub messages_of : List Bytes → List Bytes
  messages_of [] = []
  messages_of (l ∷ ls) = message_of port l ∷ messages_of ls

  pub read-messages_of :
      (address : Bytes) (ls : List Bytes)
      → All (Lacks newline) ls
      → read address (stream_of ls) ≡ requests_of address (messages_of ls)
  unfolding stream_of messages_of requests_of
  read-messages_of address [] h = unfold read lines to_requests in refl
  read-messages_of address (l ∷ ls) (h, hs) =
      let rest = stream_of ls in
      let message = message_of port l in
      let one_line : Lacks newline message =
        Lacks-append newline (itoa port) (dash ∷ l) (itoa-Lacks newline refl port)
          ((λ e. omega arith), h) in
      let laid : message_of port (typed l ++ newline ∷ []) ++ rest
          ≡ message ++ newline ∷ (newline ∷ rest) =
        simp append_assoc in
      let first = read-line address message (newline ∷ rest) one_line in
      let second = read-line address [] rest tt in
      ap (read address) laid
      ∙ ground (
        arith,
        first,
        second,
        length-append (itoa port) (dash ∷ l),
        read-messages_of address ls hs,
      )

-- a reply for every line
unfoldable pub replies_of : List Bytes → List (Option Bytes) → List Bytes
replies_of [] datagrams = []
replies_of (l ∷ ls) [] = []
replies_of (l ∷ ls) (d ∷ later) = reply_of d ∷ replies_of ls later

-- how the loop stands behind the lines
abbrev pub standing : Bool → List (Option Conn) → List Bytes → Session
standing left svrs out = if left then exited svrs out else typing svrs out

print-standing :
    (text : Bytes) (left : Bool) (svrs : List (Option Conn)) (out : List Bytes)
    → print text (standing left svrs out) ≡ standing left svrs (text ∷ out)
print-standing text true svrs out = refl
print-standing text false svrs out = refl

pub write_each-more :
    (m : ℕ) (s message : Bytes) → write_each (told m s) message ≡ done (told m (s ++ message))
unfolding write_each
write_each-more zero s message = refl
write_each-more (suc m) s message = rw (write_each, write_each-more m s message)

disconnect-told : (m : ℕ) (s : Bytes) → disconnect (told m s) ≡ true
unfolding disconnect
disconnect-told zero s = refl
disconnect-told (suc m) s = rw (disconnect, disconnect-told m s)

module _ (n port : ℕ) where
  main_loop-told :
      (s : Bytes) (ls : List Bytes) (datagrams : List (Option Bytes))
      → length (until_exit ls) ≤ length datagrams
      → main_loop port (told n s) (map_typed ls) datagrams
        ≡ standing
            (has_exit ls)
            (told n (s ++ stream_of port (until_exit ls)))
            (replies_of (until_exit ls) datagrams)
  unfolding main_loop map_typed has_exit until_exit stream_of replies_of
  main_loop-told s [] datagrams h = rw (append-nil s)
  main_loop-told s (l ∷ ls) [] h = elim (Bool-cases (has_prefix (typed l) (codes "exit"))) [
    | inl exits ↦
        rw (main_loop, map_typed, has_exit, until_exit, exits, disconnect-told n s, append-nil s)
    | inr goes_on ↦ absurd (ground (arith, h, goes_on))
  ]
  main_loop-told s (l ∷ ls) (d ∷ later) h =
      elim (Bool-cases (has_prefix (typed l) (codes "exit"))) [
        | inl exits ↦
            rw
              (main_loop, map_typed, has_exit, until_exit, exits, disconnect-told n s, append-nil s)
        | inr goes_on ↦
            let sent = message_of port (typed l ++ newline ∷ []) in
            let enough : length (until_exit ls) ≤ length later = ground (arith, h, goes_on) in
            rw
              (
                main_loop,
                map_typed,
                has_exit,
                until_exit,
                goes_on,
                write_each-more n s sent,
                main_loop-told (s ++ sent) ls later enough,
                print-standing,
                stream_of,
                replies_of,
                append_assoc s sent (stream_of port (until_exit ls)),
              )
              refl
      ]

until_exit-Lacks : (ls : List Bytes) → All (Lacks newline) ls → All (Lacks newline) (until_exit ls)
unfolding until_exit
until_exit-Lacks [] h = tt
until_exit-Lacks (l ∷ ls) (h, hs) =
    let later = until_exit-Lacks ls hs in
    elim (Bool-cases (has_prefix (typed l) (codes "exit"))) [
      | inl exits ↦ rw (until_exit, exits) tt
      | inr goes_on ↦ rw (until_exit, goes_on) (h, later)
    ]

-- Take a client with new connections to n replicas, lines that are typed at its terminal, and a
-- datagram for each of them that is not behind an "exit". Then main comes through all lines without
-- a panic, and ends exactly if one of them starts with "exit". Every replica has got the same bytes
-- from it, and reads of them one request for each line in front of the "exit", in their order, with
-- the client's port and a dash in front of the line. The client prints one reply for each line.
pub main_loop-read :
    (n port : ℕ) (address : Bytes) (ls : List Bytes) (datagrams : List (Option Bytes))
    → All (Lacks newline) ls
    → length (until_exit ls) ≤ length datagrams
    → (stream : Bytes) × (main_loop port (told n []) (map_typed ls) datagrams
        ≡ standing (has_exit ls) (told n stream) (replies_of (until_exit ls) datagrams))
      × (read address stream ≡ requests_of address (messages_of port (until_exit ls)))
main_loop-read n port address ls datagrams h enough = (
  stream_of port (until_exit ls),
  main_loop-told n port [] ls datagrams enough,
  read-messages_of port address (until_exit ls) (until_exit-Lacks ls h),
)
