-- ===== src/Recovery/State/Cut.antt =====
-- InstallReceivedState of recovery/state.go on a log that ends inside a frame.
use raft_demo.Base.{
  ℕ, zero, suc, ◌+◌, ◌-◌, ◌<◌, ◌≡◌, ◌≢◌, refl, ap, ◌∙◌, sym, true, none, some, List, [], ◌∷◌, ◌++◌,
  append_assoc, Bytes, length, ltb, replicate, arith, All, length-append, take_of_le,
  drop-nil_of_le, Option-cases, inl, inr, ◌^◌,
}
use raft_demo.Go.Binary.{get_int32, get-put_int32}
use raft_demo.Pb.{Command, Codec}
use raft_demo.Frames.{frame, frames, IsFrameable}
use raft_demo.Recovery.State.{
  reader_read, Reading, commands, add_command, read_commands, MockState, installed,
  install_commands, finish, install_received_state,
}
use raft_demo.Recovery.State.Loop.{read_commands-frame, length-frames}

module _ (pb : Codec) where
  -- commands in front of what is read behind them
  abbrev pub add_commands : List Command → Reading → Reading
  add_commands [] r = r
  add_commands (c ∷ cs) r = add_command c (add_commands cs r)

  read_commands-append :
      (k fuel : ℕ) (cs : List Command) (rest : Bytes)
      → All (IsFrameable pb) cs
      → fuel ≡ length cs + k
      → read_commands pb fuel (frames pb cs ++ rest) ≡ add_commands cs (read_commands pb k rest)
  unfolding frames
  read_commands-append k fuel [] rest h l = let same : fuel ≡ k = omega arith in rw same
  read_commands-append k zero (c ∷ cs) rest h l = absurd (omega arith)
  read_commands-append k (suc fuel) (c ∷ cs) rest (f, h) l =
      rw (append_assoc (frame pb c) (frames pb cs) rest) (
        read_commands-frame pb fuel c (frames pb cs ++ rest) f
        ∙ ap (add_command c) (read_commands-append k fuel cs rest h (omega arith)))

  -- what the loop makes of the first bytes of the frame of a command: the buffer of its length is
  -- filled with zeros behind them
  unfoldable pub cut_commands : Command → Bytes → List Command
  cut_commands c (_ ∷ _ ∷ _ ∷ _ ∷ b ∷ s) =
      elim (pb.unmarshal (b ∷ s ++ replicate (length (pb.marshal c).0 - length (b ∷ s)) 0)) [
        | none ↦ []
        | some d ↦ d ∷ []
      ]
  cut_commands c _ = []

  add_commands-commands :
      (cs ds : List Command) → add_commands cs (commands ds) ≡ commands (cs ++ ds)
  add_commands-commands [] ds = refl
  add_commands-commands (c ∷ cs) ds = ap (add_command c) (add_commands-commands cs ds)

  read_commands_nil : (fuel : ℕ) → 0 < fuel → read_commands pb fuel [] ≡ commands []
  unfolding read_commands get_int32
  read_commands_nil zero h = elim h [ ]
  read_commands_nil (suc fuel) h = refl

  reader_read-cut :
      (n b : ℕ) (s : Bytes)
      → length (b ∷ s) < n
      → reader_read n (b ∷ s) ≡ some (b ∷ s ++ replicate (n - length (b ∷ s)) 0, [])
  unfolding reader_read
  reader_read-cut n b s h =
      rw (take_of_le n (b ∷ s) (omega arith), drop-nil_of_le n (b ∷ s) (omega arith))

  head-cut :
      (c : Command) (w x y z : ℕ) (s q : Bytes)
      → IsFrameable pb c
      → frame pb c ≡ w ∷ x ∷ y ∷ z ∷ (s ++ q)
      → (get_int32 (w ∷ x ∷ y ∷ z ∷ s) ≡ some (length (pb.marshal c).0, s))
        × ((pb.marshal c).0 ≡ s ++ q)
  unfolding get_int32
  head-cut c w x y z s q f e =
      let word =
        sym (get-put_int32 (length (pb.marshal c).0) (pb.marshal c).0 (omega (arith, f.short)))
        ∙ ap get_int32 e in
      ground (arith, word)

  shorter : (xs s q : Bytes) → xs ≡ s ++ q → q ≢ [] → length s < length xs
  shorter xs s [] e some_left = absurd (some_left refl)
  shorter xs s (b ∷ q) e some_left = omega (arith, ap length e, length-append s (b ∷ q))

  read_commands-cut :
      (fuel : ℕ) (c : Command) (p q : Bytes)
      → IsFrameable pb c
      → frame pb c ≡ p ++ q
      → q ≢ []
      → length p < fuel
      → read_commands pb fuel p ≡ commands (cut_commands c p)
  unfolding read_commands cut_commands
  read_commands-cut zero c p q f e some_left l = absurd (omega arith)
  read_commands-cut (suc fuel) c [] q f e some_left l = unfold get_int32 in refl
  read_commands-cut (suc fuel) c (w ∷ []) q f e some_left l = unfold get_int32 in refl
  read_commands-cut (suc fuel) c (w ∷ x ∷ []) q f e some_left l = unfold get_int32 in refl
  read_commands-cut (suc fuel) c (w ∷ x ∷ y ∷ []) q f e some_left l = unfold get_int32 in refl
  read_commands-cut (suc fuel) c (w ∷ x ∷ y ∷ z ∷ []) q f e some_left l =
      let short : ltb (length (pb.marshal c).0) (2 ^ 31) ≡ true = ground (arith, f.short) in
      rw (read_commands, (head-cut c w x y z [] q f e).0, short) (unfold reader_read in refl)
  read_commands-cut (suc fuel) c (w ∷ x ∷ y ∷ z ∷ b ∷ s) q f e some_left l =
      let (word, rest) = head-cut c w x y z (b ∷ s) q f e in
      let short : ltb (length (pb.marshal c).0) (2 ^ 31) ≡ true = ground (arith, f.short) in
      let n = length (pb.marshal c).0 in
      let padded = b ∷ s ++ replicate (n - length (b ∷ s)) 0 in
      let part = reader_read-cut n b s (shorter (pb.marshal c).0 (b ∷ s) q rest some_left) in
      elim (Option-cases (pb.unmarshal padded)) [
        | inl bad ↦ rw (read_commands, word, short, part, cut_commands, bad)
        | inr (d, read) ↦
            rw (read_commands, word, short, part, cut_commands, read)
              (ap (add_command d) (read_commands_nil fuel (omega arith)))
      ]

  -- Take a log of whole frames, and behind them the first bytes of one more frame. The installation
  -- does not panic: it installs all commands of the whole frames, in their order, and of the frame
  -- that is cut off nothing, where no more than its length is there, or where its bytes with zeros
  -- in place of the missing ones are no command; else the command that these bytes are.
  pub install-frames_cut :
      (m : MockState) (cs : List Command) (c : Command) (p q : Bytes)
      → All (IsFrameable pb) cs
      → IsFrameable pb c
      → frame pb c ≡ p ++ q
      → q ≢ []
      → install_received_state pb m (frames pb cs ++ p)
        ≡ installed
            (length (cs ++ cut_commands c p))
            (record { state = install_commands m.state (cs ++ cut_commands c p) })
  unfolding install_received_state
  install-frames_cut m cs c p q h f e some_left =
      let whole = frames pb cs in
      let k = suc (length (whole ++ p)) - length cs in
      let fuel : length p < k = omega (arith, length-append whole p, length-frames pb cs) in
      ap (finish m) (
        read_commands-append k (suc (length (whole ++ p))) cs p h
          (omega (arith, length-append whole p, length-frames pb cs))
        ∙ ap (add_commands cs) (read_commands-cut k c p q f e some_left fuel)
        ∙ add_commands-commands cs (cut_commands c p))
