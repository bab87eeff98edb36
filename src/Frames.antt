-- ===== src/Frames.antt =====
-- The format of the command logs: what the replicas and the loggers write and recovery reads. This
-- is the specification that the three programs meet at.
use raft_demo.Base.{◌^◌, ◌<◌, ◌≡◌, refl, true, List, [], ◌∷◌, ◌++◌, append_assoc, Bytes, length}
use raft_demo.Go.Binary.{put_int32}
use raft_demo.Pb.{Command, Codec}

module _ (pb : Codec) where
  -- one command: its length in four bytes, then its bytes
  abbrev pub frame : Command → Bytes
  frame c = put_int32 (length (pb.marshal c).0) ++ (pb.marshal c).0

  unfoldable pub frames : List Command → Bytes
  frames [] = []
  frames (c ∷ cs) = frame c ++ frames cs

  -- A command that the four bytes of a length serve for.
  pub record IsFrameable (c : Command) : Type 0 where
    pub marshalled : (pb.marshal c).1 ≡ true
    pub not_empty : 0 < length (pb.marshal c).0
    pub short : length (pb.marshal c).0 < 2 ^ 31

  pub frames-append : (cs ds : List Command) → frames (cs ++ ds) ≡ frames cs ++ frames ds
  unfolding frames
  frames-append [] ds = refl
  frames-append (c ∷ cs) ds =
      rw (frames-append cs ds, append_assoc (frame c) (frames cs) (frames ds))
