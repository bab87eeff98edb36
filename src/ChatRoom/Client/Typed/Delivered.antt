-- ===== src/ChatRoom/Client/Typed/Delivered.antt =====
-- What the servers read of the lines that are typed at a client.
use raft_demo.Base.{
  ℕ, zero, suc, ◌≡◌, ◌≢◌, refl, ap, ◌∙◌, Bool, true, false, Option, some, List, [], ◌∷◌, ◌++◌,
  append_assoc, append-nil, Bytes, codes, newline, length, length-append, eqb, Lacks, All, arith,
  Bool-cases, inl, inr, if◌then◌else◌, ◌==◌, eq_iff,
}
use raft_demo.Go.Strings.{contains}
use raft_demo.Client.Commands.{Conn}
use raft_demo.Client.Connect.{Connected, done, write_each}
use raft_demo.Client.Connect.Replicas.{AllDial, told, connect-told}
use raft_demo.Kvstore.Sessions.{lines}
use raft_demo.Kvstore.Sessions.Framing.{lines-Lacks}
use raft_demo.ChatRoom.Server.{long_lines, read}
use raft_demo.ChatRoom.Client.Typed.{
  Session, exited, typing, disconnect, broadcast, main_loop, begin, connect, new, main,
}

-- a line as it is typed
abbrev pub typed : Bytes → Bytes
typed s = s ++ newline ∷ []

unfoldable pub map_typed : List Bytes → List Bytes
map_typed [] = []
map_typed (s ∷ ls) = typed s ∷ map_typed ls

-- the lines in front of the first that has "exit" in it
unfoldable pub until_exit : List Bytes → List Bytes
until_exit [] = []
until_exit (s ∷ ls) =
    let later = until_exit ls in if contains (typed s) (codes "exit") then [] else typed s ∷ later

unfoldable pub has_exit : List Bytes → Bool
has_exit [] = false
has_exit (s ∷ ls) =
    let later = has_exit ls in if contains (typed s) (codes "exit") then true else later

-- what a connection carries for the lines
unfoldable pub stream_of : List Bytes → Bytes
stream_of [] = []
stream_of (t ∷ ts) = (t ++ newline ∷ []) ++ stream_of ts

-- how the loop stands behind the lines
abbrev pub standing : Bool → List (Option Conn) → Session
standing left svrs = if left then exited svrs else typing svrs

module _ (n : ℕ) where
  write_each-more :
      (m : ℕ) (s message : Bytes) → write_each (told m s) message ≡ done (told m (s ++ message))
  unfolding write_each
  write_each-more zero s message = refl
  write_each-more (suc m) s message = rw (write_each, write_each-more m s message)

  disconnect-told : (m : ℕ) (s : Bytes) → disconnect (told m s) ≡ true
  unfolding disconnect
  disconnect-told zero s = refl
  disconnect-told (suc m) s = rw (disconnect, disconnect-told m s)

  main_loop-told :
      (s : Bytes) (ls : List Bytes)
      → main_loop (told n s) (map_typed ls)
        ≡ standing (has_exit ls) (told n (s ++ stream_of (until_exit ls)))
  unfolding main_loop map_typed has_exit until_exit stream_of broadcast
  main_loop-told s [] = rw (append-nil s)
  main_loop-told s (l ∷ ls) = elim (Bool-cases (contains (typed l) (codes "exit"))) [
    | inl exits ↦
        rw (main_loop, map_typed, has_exit, until_exit, exits, disconnect-told n s, append-nil s)
    | inr goes_on ↦
        let sent = typed l ++ newline ∷ [] in
        rw
          (
            main_loop,
            map_typed,
            has_exit,
            until_exit,
            goes_on,
            broadcast,
            write_each-more n s sent,
            main_loop-told (s ++ sent) ls,
            append_assoc s sent (stream_of (until_exit ls)),
          )
          refl
  ]

read-typed :
    (l rest : Bytes)
    → Lacks newline l
    → read ((typed l ++ newline ∷ []) ++ rest)
      ≡ (if eqb (length l) 0 then read rest else typed l ∷ read rest)
unfolding read long_lines
read-typed l rest h =
    rw
      (
        append_assoc (typed l) (newline ∷ []) rest,
        append_assoc l (newline ∷ []) (newline ∷ rest),
        lines-Lacks [] l (newline ∷ rest) h,
        lines-Lacks [] [] rest tt,
      )
      (ground (arith, length-append l (newline ∷ [])))

read-until_exit :
    (ls : List Bytes)
    → All (Lacks newline) ls
    → read (stream_of (until_exit ls)) ≡ long_lines (until_exit ls)
unfolding stream_of until_exit long_lines
read-until_exit [] h = unfold read lines in refl
read-until_exit (l ∷ ls) (h, hs) = elim (Bool-cases (contains (typed l) (codes "exit"))) [
  | inl exits ↦ rw (until_exit, exits) (unfold read lines in refl)
  | inr goes_on ↦
      rw
        (
          until_exit,
          goes_on,
          stream_of,
          read-typed l (stream_of (until_exit ls)) h,
          read-until_exit ls hs,
        )
        (ground (arith, length-append l (newline ∷ [])))
]

-- Take a client whose configuration has as many replicas as addresses, all of which can be dialled.
-- Then main reads every line that is typed, up to the first that has "exit" in it, and ends there
-- without a panic if there is one. Every replica has got the same bytes from it, and reads of them,
-- in their order, exactly the lines in front of the "exit" that are not empty, each once.
pub main-read :
    (filename : Bytes) (svr_ips : List Bytes) (size : ℕ) (dials : Bytes → Bool) (ls : List Bytes)
    → filename ≢ []
    → AllDial dials svr_ips
    → All (Lacks newline) ls
    → (stream : Bytes) × (main filename
          (some (record { rep = length svr_ips; svr_ips = svr_ips; mqueue_size = size }))
          dials
          (map_typed ls)
        ≡ standing (has_exit ls) (told (length svr_ips) stream))
      × (read stream ≡ long_lines (until_exit ls))
unfolding main new connect
main-read filename svr_ips size dials ls named h typed_lines =
    let n = length svr_ips in
    let tested : (filename == []) ≡ false = ground (arith, eq_iff filename [], named) in
    let begun : begin (connect dials n svr_ips) (map_typed ls)
        ≡ standing (has_exit ls) (told n (stream_of (until_exit ls))) =
      ap (λ (c : Connected). begin c (map_typed ls)) (connect-told dials svr_ips h)
      ∙ main_loop-told n [] ls in
    (stream_of (until_exit ls), rw (main, tested) begun, read-until_exit ls typed_lines)
