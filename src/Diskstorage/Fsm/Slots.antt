-- ===== src/Diskstorage/Fsm/Slots.antt =====
-- The slots that applySet and applyGet of diskstorage/fsm.go use, for keys below 2^53.
use raft_demo.Base.{
  ℕ, ◌+◌, ◌*◌, ◌^◌, ◌≤◌, ◌<◌, ◌≡◌, ◌≢◌, ◌⊎◌, inl, inr, refl, some, Bytes, length, arith, eqb,
  Bool-cases, [], if◌then◌else◌,
}
use raft_demo.Go.Strconv.{itoa}
use raft_demo.Go.Strconv.Laws.{atoi-itoa}
use raft_demo.Go.Files.{overwrite, read_at}
use raft_demo.Go.Files.Laws.{read_at-overwrite_self, read_at-overwrite_apart}
use raft_demo.Diskstorage.Fsm.{store_value, Store, stride, key_stride, apply_set, apply_get}

pub key_stride-itoa : (n : ℕ) → n < 2 ^ 53 → key_stride (itoa n) ≡ some (1024 * n)
key_stride-itoa n h = rw (key_stride, atoi-itoa n (omega arith)) (unfold stride in ground arith)

length-store_value : length store_value ≡ 1024
unfolding store_value
length-store_value = refl

pub read_back :
    (c : Bytes) (off : ℕ) → read_at (overwrite c off store_value) 1024 off ≡ some store_value
read_back c off = rw (← length-store_value) (read_at-overwrite_self c off store_value)

apart : (i j : ℕ) → i ≢ j → (1024 * j + 1024 ≤ 1024 * i) ⊎ (1024 * i + 1024 ≤ 1024 * j)
apart i j h = grind arith

-- A SET of a key n below 2^53 never panics. A GET of such a key whose slot lies in the file then
-- returns, for n itself, the 1024 bytes of the constant storeValue, whatever the value of the SET
-- was, and for another key what it returned before.
pub apply_get-apply_set :
    (f : Store) (n j : ℕ) (value : Bytes)
    → n < 2 ^ 53
    → j < 2 ^ 53
    → 1024 * j + 1024 ≤ length f.local
    → (f' : Store) × (apply_set f (itoa n) value ≡ some (f', []))
      × (apply_get f' (itoa j) ≡ (if eqb n j then some store_value else apply_get f (itoa j)))
unfolding apply_set apply_get
apply_get-apply_set f n j value hn hj fits = (
  record f { local = overwrite f.local (1024 * n) store_value },
  rw (apply_set, key_stride-itoa n hn),
  rw (apply_get, key_stride-itoa j hj)
      (elim (Bool-cases (eqb n j)) [
        | inl e ↦ let same : j ≡ n = ground arith in rw (e, same) (read_back f.local (1024 * n))
        | inr e ↦ rw e (
            read_at-overwrite_apart f.local (1024 * n) (1024 * j) 1024 store_value fits
              (rw length-store_value (apart n j (ground arith))))
      ]),
)
