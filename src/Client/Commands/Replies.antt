-- ===== src/Client/Commands/Replies.antt =====
-- What a client makes of the answer to a GET.
use raft_demo.Base.{
  ℕ, some, ◌%◌, ◌^◌, ◌+◌, ◌-◌, ◌≡◌, refl, ap, Bool, true, List, [], ◌∷◌, ◌++◌, append-nil, ◌≤◌, ◌<◌,
  Bytes, codes, newline, dash, length, length-append, take, take_of_le, take-append_of_le,
  replicate, ltb, Lacks, arith, Bool-cases, inl, inr, if◌then◌else◌,
}
use raft_demo.Pb.{get, Command, Log, Codec}
use raft_demo.Kvstore.Fsm.{Store, run}
use raft_demo.Kvstore.Sessions.{Request, host, read}
use raft_demo.Kvstore.Sessions.Framing.{IsSendable}
use raft_demo.Kvstore.Store.Proposals.{before_dash}
use raft_demo.Kvstore.Server.{Server, handle_request}
use raft_demo.Client.Commands.{read_udp}
use raft_demo.Client.Commands.Delivery.{sent_command}
use raft_demo.Client.Commands.Answered.{leader_of, value_after, handle_request-read}

abbrev pub reply_of : Bytes → Bytes
reply_of value = codes "OK: " ++ (value ++ newline ∷ [])

read_udp-reply_of :
    (value : Bytes)
    → read_udp (reply_of value) ≡ (
        if ltb (length value) 124
        then reply_of value ++ replicate (123 - length value) 0
        else codes "OK: " ++ take 124 value)
unfolding read_udp
read_udp-reply_of value = elim (Bool-cases (ltb (length value) 124)) [
  | inl short ↦
      let lengths = length-append value (newline ∷ []) in
      let under : length value < 124 = ground (arith, short) in
      let whole = take_of_le 124 (value ++ newline ∷ []) (omega arith) in
      let left : 128 - length (reply_of value) ≡ 123 - length value = omega arith in
      rw (whole, left, short) refl
  | inr long ↦
      let lengths = length-append value (newline ∷ []) in
      let over : 124 ≤ length value = ground (arith, long) in
      let cut = take-append_of_le 124 value (newline ∷ []) over in
      let left : 128 - length (reply_of value) ≡ 0 = omega arith in
      rw (cut, left, long) (ap (λ (t : Bytes). codes "OK: " ++ t) (append-nil (take 124 value)))
]

-- what the client gets for a value
abbrev pub seen : Bytes → Bytes
seen value =
    if ltb (length value) 124
    then reply_of value ++ replicate (123 - length value) 0
    else codes "OK: " ++ take 124 value

-- The way of a GET from the client over the leader back to the client: the leader reads one request
-- from the connection, and sends one datagram to the client's port. With the value of the key, up to
-- the first dash in it, the client's text is "OK: ", the value, a newline and zeros up to 128 bytes
-- where the value has less than 124 bytes; from there on it is "OK: " and the first 124 bytes of the
-- value. The hypotheses are that the command can be marshalled to bytes without a newline, that the
-- port has no dash, and that the leader can dial it.
pub handle_request-read_udp :
    (pb : Codec) (f : Store) (ls : List Log) (index : ℕ) (svr : Server) (c : Command)
    (port address : Bytes) (dials : Bytes → Bool)
    → c.op ≡ get
    → (pb.marshal (sent_command pb c port)).1 ≡ true
    → IsSendable (pb.marshal (sent_command pb c port)).0
    → Lacks dash port
    → dials (host address ++ (codes ":" ++ port)) ≡ true
    → (r : Request) × (svr' : Server) × (datagram : Bytes) × (read address
          ((pb.marshal (sent_command pb c port)).0 ++ newline ∷ [])
        ≡ r ∷ [])
      × (handle_request dials (leader_of pb (run pb f ls) index) svr r ≡ some svr')
      × (svr'.sent ≡ svr.sent ++ (host address ++ (codes ":" ++ port), datagram) ∷ [])
      × (read_udp datagram ≡ seen (before_dash (value_after pb f ls c.key)))
handle_request-read_udp pb f ls index svr c port address dials is_get e s h reachable =
    let (r, one, handled) =
      handle_request-read pb f ls index svr c port address dials is_get e s h reachable in
    let value = before_dash (value_after pb f ls c.key) in
    (
      r,
      record svr {
        req = (svr.req + 1) % 2 ^ 64;
        sent = svr.sent ++ (host address ++ (codes ":" ++ port), reply_of value) ∷ [];
      },
      reply_of value,
      one,
      handled,
      refl,
      read_udp-reply_of value,
    )
