-- ===== src/Recovery/State/Loop.antt =====
-- The reading loop of InstallReceivedState in recovery/state.go, on any bytes and on frames.
use raft_demo.Base.{
  ℕ, zero, suc, ◌-◌, ◌^◌, ◌≤◌, ◌<◌, ◌≡◌, ◌≢◌, refl, ap, ◌∙◌, true, some, List, [], ◌∷◌, ◌++◌,
  append_assoc, Bytes, length, ltb, arith, All, take-length-append, drop-length-append,
  length-append, length-drop, append-nil, Option-cases, inl, inr,
}
use raft_demo.Go.Binary.{get_int32, put_int32, get-put_int32, get_int32-length}
use raft_demo.Pb.{Command, Codec}
use raft_demo.Frames.{frame, frames, IsFrameable}
use raft_demo.Recovery.State.{
  reader_read, Reading, commands, panicked, out_of_fuel, add_command, read_commands, MockState,
  stuck, finish, install_received_state,
}

-- What is there is read whole.
reader_read-append :
    (s rest : Bytes) → 0 < length s → reader_read (length s) (s ++ rest) ≡ some (s, rest)
unfolding reader_read
reader_read-append [] rest h = elim h [ ]
reader_read-append (b ∷ s) rest h =
    let enough : length (b ∷ s) - length (b ∷ s ++ rest) ≡ 0 =
      omega (arith, length-append s rest) in
    rw (enough, take-length-append s rest, drop-length-append s rest, append-nil)

reader_read-length :
    (n : ℕ) (s buf later : Bytes) → reader_read n s ≡ some (buf, later) → length later ≤ length s
unfolding reader_read
reader_read-length n (b ∷ s) buf later e = ground (arith, length-drop n (b ∷ s))
reader_read-length n [] buf later e = cc

module _ (pb : Codec) where
  pub read_commands-frame :
      (fuel : ℕ) (c : Command) (rest : Bytes)
      → IsFrameable pb c
      → read_commands pb (suc fuel) (frame pb c ++ rest)
        ≡ add_command c (read_commands pb fuel rest)
  unfolding read_commands
  read_commands-frame fuel c rest f =
      let serialized = (pb.marshal c).0 in
      let short : ltb (length serialized) (2 ^ 31) ≡ true = ground (arith, f.short) in
      rw
        (
          append_assoc,
          read_commands,
          get-put_int32 (length serialized) (serialized ++ rest) (omega (arith, f.short)),
          short,
          reader_read-append serialized rest f.not_empty,
          pb.unmarshal-marshal c f.marshalled,
        )
        refl

  pub read_commands-frames :
      (fuel : ℕ) (cs : List Command)
      → All (IsFrameable pb) cs
      → length cs < fuel
      → read_commands pb fuel (frames pb cs) ≡ commands cs
  unfolding frames
  read_commands-frames zero cs fs h = elim h [ ]
  read_commands-frames (suc fuel) [] fs h = unfold read_commands get_int32 in refl
  read_commands-frames (suc fuel) (c ∷ cs) (f, fs) h =
      read_commands-frame fuel c (frames pb cs) f
      ∙ ap (add_command c) (read_commands-frames fuel cs fs (omega arith))

  pub length-frames : (cs : List Command) → length cs ≤ length (frames pb cs)
  unfolding frames put_int32
  length-frames [] = omega arith
  length-frames (c ∷ cs) =
      omega (arith, length-frames cs, length-append (frame pb c) (frames pb cs))

  add_command-ne : (c : Command) (r : Reading) → r ≢ out_of_fuel → add_command c r ≢ out_of_fuel
  add_command-ne c (commands cs) h e = cc
  add_command-ne c panicked h e = cc
  add_command-ne c out_of_fuel h e = h e

  -- With more fuel than bytes the loop ends, whatever the bytes are.
  pub read_commands-ne-out_of_fuel :
      (fuel : ℕ) (s : Bytes) → length s < fuel → read_commands pb fuel s ≢ out_of_fuel
  unfolding read_commands
  read_commands-ne-out_of_fuel zero s h = elim h [ ]
  read_commands-ne-out_of_fuel (suc fuel) s h = elim (Option-cases (get_int32 s)) [
    | inl short ↦ ground arith
    | inr (word, e) ↦ elim (Option-cases (reader_read word.0 word.1)) [
      | inl ended ↦ ground arith
      | inr (part, e') ↦ elim (Option-cases (pb.unmarshal part.0)) [
        | inl bad ↦ ground arith
        | inr (c, read) ↦ ground (
          arith,
          get_int32-length s word.0 word.1,
          reader_read-length word.0 word.1 part.0 part.1,
          add_command-ne c (read_commands pb fuel part.1),
          read_commands-ne-out_of_fuel fuel part.1,
        )
      ]
    ]
  ]

finish-ne-stuck : (m : MockState) (r : Reading) → r ≢ out_of_fuel → finish m r ≢ stuck
finish-ne-stuck m (commands cs) h e = cc
finish-ne-stuck m panicked h e = cc
finish-ne-stuck m out_of_fuel h e = h refl

-- The installation ends, whatever bytes were received: the reading loop never runs for ever.
pub install-ne-stuck :
    (pb : Codec) (m : MockState) (s : Bytes) → install_received_state pb m s ≢ stuck
unfolding install_received_state
install-ne-stuck pb m s =
    finish-ne-stuck m (read_commands pb (suc (length s)) s)
      (read_commands-ne-out_of_fuel pb (suc (length s)) s (omega arith))
