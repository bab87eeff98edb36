-- ===== src/Diskstorage/Fsm/Faults.antt =====
-- The stride of diskstorage/fsm.go for keys above 2^54.
use raft_demo.Base.{ℕ, ◌+◌, ◌*◌, ◌^◌, ◌<◌, ◌≡◌, some, [], Bytes, arith}
use raft_demo.Go.Strconv.{itoa}
use raft_demo.Go.Strconv.Laws.{atoi-itoa}
use raft_demo.Go.Files.{overwrite}
use raft_demo.Diskstorage.Fsm.{store_value, Store, stride, key_stride, apply_set, apply_get}
use raft_demo.Diskstorage.Fsm.Slots.{key_stride-itoa, read_back}

key_stride-alias : (n : ℕ) → n < 2 ^ 53 → key_stride (itoa (n + 2 ^ 54)) ≡ some (1024 * n)
key_stride-alias n h =
    rw (key_stride, atoi-itoa (n + 2 ^ 54) (omega arith)) (unfold stride in ground arith)

-- The product of a key and the size of a slot wraps around: a SET of the key n + 2^54, for n below
-- 2^53, does not panic, and writes the slot of the key n.
pub apply_set-alias :
    (f : Store) (n : ℕ) (value : Bytes)
    → n < 2 ^ 53
    → (f' : Store) × (apply_set f (itoa (n + 2 ^ 54)) value ≡ some (f', []))
      × (apply_get f' (itoa n) ≡ some store_value)
unfolding apply_set apply_get
apply_set-alias f n value h = (
  record f { local = overwrite f.local (1024 * n) store_value },
  rw (apply_set, key_stride-alias n h),
  rw (apply_get, key_stride-itoa n h) (read_back f.local (1024 * n)),
)
