-- ===== src/Recovery/State.antt =====
-- recovery/state.go: the state that is rebuilt from the log of a replica.
pub mod Loop
pub mod Install
pub mod Cut
use raft_demo.Base.{
  ℕ, zero, suc, ◌+◌, ◌-◌, ◌^◌, Bool, true, false, Option, none, some, List, [], ◌∷◌, ◌++◌, Bytes,
  length, take, drop, replicate, ltb,
}
use raft_demo.Base.Dict
use raft_demo.Base.Dict.{Dict}
use raft_demo.Go.Binary.{get_int32}
use raft_demo.Pb.{Operation, get, set, delete, other, Command, Codec}

-- reader.Read(buf) of a bytes.Reader, into a buffer of n zeros: an error at the end of the data,
-- and else what is there, which may be less than n.
unfoldable pub reader_read : ℕ → Bytes → Option (Bytes × Bytes)
reader_read n [] = none
reader_read n (b ∷ s) = some (take n (b ∷ s) ++ replicate (n - length (b ∷ s)) 0, drop n (b ∷ s))

-- what the reading loop leaves: the commands, or a panic of make with a negative length
pub data Reading : Type 0 where
  commands : List Command → Reading
  panicked : Reading
  out_of_fuel : Reading

abbrev pub add_command : Command → Reading → Reading
add_command c (commands cs) = commands (c ∷ cs)
add_command c panicked = panicked
add_command c out_of_fuel = out_of_fuel

module _ (pb : Codec) where
  -- the loop of InstallReceivedState; each error breaks out of it
  unfoldable pub read_commands : ℕ → Bytes → Reading
  read_commands zero s = out_of_fuel
  read_commands (suc fuel) s = elim (get_int32 s) [
    | none ↦ commands []
    | some (n, rest) ↦ elim (ltb n (2 ^ 31)) [
      | false ↦ panicked
      | true ↦ elim (reader_read n rest) [
        | none ↦ commands []
        | some (serialized, later) ↦ elim (pb.unmarshal serialized) [
          | none ↦ commands []
          | some c ↦ add_command c (read_commands fuel later)
        ]
      ]
    ]
  ]

-- MockState
pub record MockState : Type 0 where
  pub state : Dict Bytes

-- NewMockState; preInitialize is false there
abbrev pub new_mock_state : MockState
new_mock_state = record { state = Dict.empty }

-- one round of the second loop
unfoldable pub install_command : Dict Bytes → Command → Dict Bytes
install_command m c = elim c.op [ set ↦ Dict.put m c.key c.value | _ ↦ m ]

unfoldable pub install_commands : Dict Bytes → List Command → Dict Bytes
install_commands m [] = m
install_commands m (c ∷ cs) = install_commands (install_command m c) cs

pub data Installed : Type 0 where
  installed : ℕ → MockState → Installed
  crashed : Installed
  stuck : Installed

abbrev pub finish : MockState → Reading → Installed
finish m (commands cs) = installed (length cs) (record { state = install_commands m.state cs })
finish m panicked = crashed
finish m out_of_fuel = stuck

-- InstallReceivedState; each round of the loop reads four bytes, so the fuel is enough
unfoldable pub install_received_state : Codec → MockState → Bytes → Installed
install_received_state pb m s = finish m (read_commands pb (suc (length s)) s)
