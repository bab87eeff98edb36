-- ===== src/Examples/Web.antt =====
-- The HTTP service over the replicated store.
use raft_demo.Base.{
  true, ◌≡◌, refl, some, none, Option, List, [], ◌∷◌, ◌++◌, Bytes, codes, get_or, if◌then◌else◌,
  ◌==◌, length, take, drop, take-length-append, drop-length-append,
}
use raft_demo.Base.Dict
use raft_demo.Go.Strings.{has_prefix}
use raft_demo.Webkvstore.Interface.{Command, CommandCodec, KeyValueStore}
use raft_demo.Webkvstore.Store.{Store, committing, set, delete, propose, apply, dispatch}
use raft_demo.Webkvstore.Store.Laws.{value_of, HasOps}
use raft_demo.Webkvstore.Store.Instance.{web_store}
use raft_demo.Webkvstore.Service.{
  Request, MapCodec, get_key, member, set_all, handle_key_request, handle_get, handle_post,
  handle_delete, serve_http,
}
use raft_demo.Webkvstore.Service.Branches.{serve_http-get, handle_get-handle_post}
use raft_demo.Membership.Sample.{sample_cluster}

-- the texts one after the other, with their lengths in front
abbrev pub encode : Command → Bytes
encode c = length c.op ∷ length c.key ∷ (c.op ++ (c.key ++ c.value))

abbrev pub decode : Bytes → Option Command
decode (o ∷ k ∷ s) =
    some (record { op = take o s; key = take k (drop o s); value = drop k (drop o s) })
decode _ = none

pub decode-encode : (c : Command) → decode (encode c) ≡ some c
decode-encode c = rw (
  take-length-append c.op (c.key ++ c.value),
  drop-length-append c.op (c.key ++ c.value),
  take-length-append c.key c.value,
  drop-length-append c.key c.value,
)

abbrev pub codec : CommandCodec
codec = record {
  IsUtf8 = λ s. Unit;
  marshal = encode;
  unmarshal = decode;
  unmarshal-marshal = λ c h. decode-encode c;
}

abbrev pub empty_store : Store
empty_store = record { m = Dict.empty; recov = [] }

ops : HasOps codec
ops = record { set_text = tt; delete_text = tt; empty_text = tt }

abbrev service_store : KeyValueStore
service_store = web_store codec (λ s. tt) committing sample_cluster

-- a body is one key and one value of one byte each
abbrev read_body : Bytes → Option (List (Bytes × Bytes))
read_body (k ∷ v ∷ []) = some ((k ∷ [], v ∷ []) ∷ [])
read_body _ = none

abbrev bodies : MapCodec
bodies = record { decode = read_body; encode_pair = λ k v. k ++ v }

abbrev service_state : service_store.State
service_state = (empty_store, [])

abbrev bad_request : Request
bad_request = record { method = codes "POST"; path = codes "/key"; body = [] }

refused : (serve_http service_store bodies service_state bad_request).1.status ≡ some 400
unfolding serve_http handle_key_request handle_post has_prefix ◌==◌
refused = refl

posted : (handle_post service_store bodies service_state (codes "kv")).1.status ≡ none
unfolding handle_post set_all set propose apply dispatch ◌==◌
posted = refl

handle_get-handle_post_example :
    (handle_get service_store bodies
      (handle_post service_store bodies service_state (codes "kv")).0
      (codes "k")).1.body
    ≡ codes "k"
      ++ get_or
          (member ((codes "k", codes "v") ∷ []) (codes "k"))
          (value_of empty_store (codes "k"))
unfolding member
handle_get-handle_post_example =
    handle_get-handle_post service_store bodies service_state (codes "kv")
      ((codes "k", codes "v") ∷ []) (codes "k") refl (refl, tt) posted

abbrev no_key : Request
no_key = record { method = codes "GET"; path = codes "/key"; body = [] }

keyed : has_prefix no_key.path (codes "/key") ≡ true
unfolding has_prefix ◌==◌
keyed = refl

serve_http-get_example :
    ((serve_http service_store bodies service_state no_key).1 ≡ record {
      status = some (if get_key no_key.path == [] then 400 else 200);
      body =
          bodies.encode_pair
            (get_key no_key.path)
            (service_store.value service_state (get_key no_key.path));
    })
    × (service_store.value (serve_http service_store bodies service_state no_key).0 (codes "k")
        ≡ service_store.value service_state (codes "k"))
serve_http-get_example =
    serve_http-get service_store bodies service_state no_key (codes "k") refl keyed

removed : (handle_delete service_store bodies service_state (codes "k")).1.status ≡ none
unfolding handle_delete delete propose apply dispatch ◌==◌
removed = refl
