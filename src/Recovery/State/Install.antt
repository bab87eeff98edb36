-- ===== src/Recovery/State/Install.antt =====
-- The map that the second loop of InstallReceivedState in recovery/state.go makes.
use raft_demo.Base.{◌≡◌, refl, Option, none, some, List, [], ◌∷◌, Bytes, arith}
use raft_demo.Base.Dict
use raft_demo.Base.Dict.{Dict, get-put, get-empty}
use raft_demo.Pb.{Command}
use raft_demo.Recovery.State.{install_command, install_commands}

-- the first value, and the second where there is none
abbrev pub or_else {ℓ} : {A : Type ℓ} → Option A → Option A → Option A
or_else none d = d
or_else (some a) d = some a

pub or_else_assoc {ℓ} :
    {A : Type ℓ} (a b c : Option A) → or_else a (or_else b c) ≡ or_else (or_else a b) c
or_else_assoc none b c = refl
or_else_assoc (some a) b c = refl

get-install_command :
    (m : Dict Bytes) (c : Command) (k : Bytes)
    → Dict.get (install_command m c) k
      ≡ or_else (Dict.get (install_command Dict.empty c) k) (Dict.get m k)
unfolding install_command
get-install_command m c k =
    ground (
      arith,
      get-put m c.key k c.value,
      get-put Dict.empty c.key k c.value,
      get-empty {V = Bytes} k,
    )

-- Commands that are installed over a map hide its values, and leave the others.
pub get-install_commands :
    (m : Dict Bytes) (cs : List Command) (k : Bytes)
    → Dict.get (install_commands m cs) k
      ≡ or_else (Dict.get (install_commands Dict.empty cs) k) (Dict.get m k)
unfolding install_commands
get-install_commands m [] k = ground (arith, get-empty {V = Bytes} k)
get-install_commands m (c ∷ cs) k = ground (
  arith,
  get-install_commands (install_command m c) cs k,
  get-install_commands (install_command Dict.empty c) cs k,
  get-install_command m c k,
)
