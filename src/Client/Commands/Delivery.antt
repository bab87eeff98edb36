-- ===== src/Client/Commands/Delivery.antt =====
-- A command from the client to the state machine of a replica.
use raft_demo.Base.{
  ◌≡◌, refl, sym, ap, ◌∙◌, true, false, some, List, [], ◌∷◌, ◌++◌, Bytes, newline, All, All-map,
  subst,
}
use raft_demo.Go.Strings.{trim_suffix}
use raft_demo.Go.Strings.Laws.{trim_suffix-concat}
use raft_demo.Pb.{Command, Codec}
use raft_demo.Kvstore.Sessions.{Request, host, read}
use raft_demo.Kvstore.Sessions.Framing.{framed, requests_of, read-framed, IsSendable}
use raft_demo.Client.Commands.{Conn, write_all, broadcast_protobuf}

-- A connection that is open and has sent nothing.
abbrev pub IsNew : Conn → Type 0
IsNew v = (v.sent ≡ []) × (v.broken ≡ false)

write_all-new :
    (svrs : List Conn) (message : Bytes)
    → All IsNew svrs
    → ((write_all svrs message).1 ≡ true) × All (λ v. v.sent ≡ message) (write_all svrs message).0
unfolding write_all
write_all-new [] message h = (refl, tt)
write_all-new (v ∷ vs) message (h, hs) =
    rw (write_all, h.1)
      (
        (write_all-new vs message hs).0,
        (ap (λ (s : Bytes). s ++ message) h.0, (write_all-new vs message hs).1),
      )

module _ (pb : Codec) (c : Command) (port : Bytes) where
  -- the command as it is sent
  abbrev pub sent_command : Command
  sent_command = record c { ip = port }

  -- What every replica reads of the stream: one request, whose bytes are the command.
  abbrev pub IsDelivered : Bytes → Type 0
  IsDelivered stream =
      (address : Bytes)
      → (r : Request) × (read address stream ≡ r ∷ [])
        × (r.ip ≡ host address)
        × (pb.unmarshal (trim_suffix r.command (newline ∷ [])) ≡ some sent_command)

  pub delivered :
      IsSendable (pb.marshal sent_command).0
      → (pb.marshal sent_command).1 ≡ true
      → IsDelivered ((pb.marshal sent_command).0 ++ newline ∷ [])
  unfolding framed requests_of
  delivered s e address =
      let message = (pb.marshal sent_command).0 in
      (
        record { command = message ++ newline ∷ []; ip = host address },
        read-framed address (message ∷ []) (s, tt),
        refl,
        ap pb.unmarshal (trim_suffix-concat message newline) ∙ pb.unmarshal-marshal sent_command e,
      )

  -- Take new connections to the replicas, and a command that can be marshalled, with the client's
  -- port for its IP, to bytes with no newline. Then BroadcastProtobuf returns no error, and every
  -- replica reads one request from its connection, whose bytes, once the newline at their end is
  -- cut off, are unmarshalled to that command.
  pub broadcast_protobuf-IsDelivered :
      (svrs : List Conn)
      → All IsNew svrs
      → (pb.marshal sent_command).1 ≡ true
      → IsSendable (pb.marshal sent_command).0
      → ((broadcast_protobuf pb svrs c port).1 ≡ true)
        × All (λ v. IsDelivered v.sent) (broadcast_protobuf pb svrs c port).0
  unfolding broadcast_protobuf
  broadcast_protobuf-IsDelivered svrs n e s =
      let message = (pb.marshal sent_command).0 ++ newline ∷ [] in
      let (done, same) = write_all-new svrs message n in
      rw (broadcast_protobuf, e)
        (
          done,
          All-map (λ v. v.sent ≡ message) (λ v. IsDelivered v.sent)
              (λ v p. subst IsDelivered (sym p) (delivered s e)) (write_all svrs message).0 same,
        )
