-- ===== src/Pb/Sample.antt =====
-- A codec that meets the laws, for the examples: the fields one after the other, texts with their
-- lengths.
use raft_demo.Base.{
  ℕ, zero, suc, ◌≡◌, refl, true, Option, none, some, Bytes, length, ◌∷◌, ◌++◌, arith, take, drop,
  take-length-append, drop-length-append,
}
use raft_demo.Pb.Defs.{Operation, get, set, delete, other, Command, Codec}

abbrev pub tag : Operation → ℕ
tag get = 0
tag set = 1
tag delete = 2
tag (other n) = suc (suc (suc n))

abbrev pub op_of : ℕ → Operation
op_of zero = get
op_of (suc zero) = set
op_of (suc (suc zero)) = delete
op_of (suc (suc (suc n))) = other n

op_of-tag : (o : Operation) → op_of (tag o) ≡ o
op_of-tag get = refl
op_of-tag set = refl
op_of-tag delete = refl
op_of-tag (other n) = refl

abbrev pub encode : Command → Bytes
encode c = c.id ∷ tag c.op ∷ length c.ip ∷ length c.key ∷ (c.ip ++ (c.key ++ c.value))

abbrev pub decode : Bytes → Option Command
decode (id ∷ op ∷ i ∷ k ∷ s) = some (record {
  id = id;
  ip = take i s;
  op = op_of op;
  key = take k (drop i s);
  value = drop k (drop i s);
})
decode _ = none

pub decode-encode : (c : Command) → decode (encode c) ≡ some c
decode-encode c = rw (
  op_of-tag c.op,
  take-length-append c.ip (c.key ++ c.value),
  drop-length-append c.ip (c.key ++ c.value),
  take-length-append c.key c.value,
  drop-length-append c.key c.value,
)

abbrev pub sample_codec : Codec
sample_codec = record {
  unmarshal = decode;
  marshal = λ c. (encode c, true);
  unmarshal-marshal = λ c h. decode-encode c;
  marshal_of_read = λ s c id h l. refl;
  marshal_pos = λ c h l. omega arith;
}
