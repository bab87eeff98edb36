-- ===== src/Examples/Buffers.antt =====
-- The gzip branches of kvstore/ with a sample of a compressor.
use raft_demo.Base.{
  ℕ, ◌≡◌, refl, ap, append-nil, Option, none, some, [], ◌∷◌, Bytes, codes, ◌==◌, arith,
}
use raft_demo.Base.Dict
use raft_demo.Go.Buffers.{reset}
use raft_demo.Kvstore.Compressed.{Gzip, Store, apply_set, apply_get}
use raft_demo.Kvstore.Compressed.Aliased.{Inverts, apply_get-apply_set_alias}

-- a header of two bytes in front of the text as it is
without_header : Bytes → Option Bytes
without_header (_ ∷ _ ∷ text) = some text
without_header _ = none

abbrev sample_gzip : Gzip
sample_gzip = record { parts = λ text. (31 ∷ 139 ∷ []) ∷ text ∷ []; read_all = without_header }

sample_gzip-Inverts : Inverts sample_gzip
unfolding without_header
sample_gzip-Inverts text = ap some (append-nil text)

abbrev spare : ℕ → ℕ → ℕ
spare capacity needed = needed

abbrev empty_store : Store
empty_store = record {
  heap = [] ∷ [];
  m = Dict.empty;
  gzip_buffer = record { array = 0; size = 0 };
}

abbrev after_set : Store
after_set = (apply_set spare sample_gzip empty_store (codes "a") (codes "one")).0

abbrev after_both : Store
after_both = (apply_set spare sample_gzip after_set (codes "b") (codes "two")).0

apply_get-apply_set_alias_example :
    apply_get sample_gzip after_both (codes "a")
    ≡ some (record after_both { gzip_buffer = reset after_both.gzip_buffer }, codes "two")
unfolding ◌==◌
apply_get-apply_set_alias_example =
    apply_get-apply_set_alias spare sample_gzip sample_gzip-Inverts empty_store (codes "a")
      (codes "b") (codes "one") (codes "two") (omega arith, omega arith) refl refl
