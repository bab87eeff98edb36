-- ===== src/Examples/Storage.antt =====
-- The slots of diskstorage/.
use raft_demo.Base.{false, ◌+◌, ◌^◌, ◌≡◌, some, [], codes, replicate, arith, eqb, if◌then◌else◌}
use raft_demo.Go.Strconv.{itoa}
use raft_demo.Diskstorage.Fsm.{Store, store_value, apply_set, apply_get}
use raft_demo.Diskstorage.Fsm.Slots.{apply_get-apply_set}
use raft_demo.Diskstorage.Fsm.Faults.{apply_set-alias}

abbrev disk : Store
disk = record {
  local = replicate 2048 0;
  logging = false;
  log_file = record { content = []; offset = 0 };
}

apply_get-apply_set_example :
    (f' : Store) × (apply_set disk (itoa 0) (codes "v") ≡ some (f', []))
    × (apply_get f' (itoa 1) ≡ (if eqb 0 1 then some store_value else apply_get disk (itoa 1)))
apply_get-apply_set_example =
    apply_get-apply_set disk 0 1 (codes "v") (omega arith) (omega arith) (omega arith)

apply_set-alias_example :
    (f' : Store) × (apply_set disk (itoa (7 + 2 ^ 54)) (codes "v") ≡ some (f', []))
    × (apply_get f' (itoa 7) ≡ some store_value)
apply_set-alias_example = apply_set-alias disk 7 (codes "v") (omega arith)
