-- ===== src/Kvstore/Server/Validate.antt =====
-- validateReq of kvstore/server.go, for requests that are texts with dashes.
use raft_demo.Base.{
  ◌≡◌, refl, ap, ◌∙◌, Bool, true, false, ◌||◌, Option, none, some, List, ◌∷◌, Bytes, codes, dash,
  length, leb, Lacks, ◌==◌, if◌then◌else◌,
}
use raft_demo.Go.Strings.{split}
use raft_demo.Go.Strings.Laws.{split-append}
use raft_demo.Logger.Serialize.Texts.{
  Ask, setting, getting, deleting, text_of, tail_of, tail_parts, IsPlain, split-tail_of,
}

-- validateReq, where `to_lower` is strings.ToLower; `none` is the panic at an index out of range
unfoldable pub validate_req : (Bytes → Bytes) → Bytes → Option Bool
validate_req to_lower requisition = elim (split (to_lower requisition) dash) [
  | part ∷ op ∷ more ↦
      let n = length (part ∷ op ∷ more) in
      if op == codes "set"
      then some (leb 3 n)
      else if op == codes "get" || op == codes "delete"
      then some (leb 2 n)
      else some false
  | _ ↦ none
]

validate-tail_parts :
    (to_lower : Bytes → Bytes) (text ip : Bytes) (ask : Ask)
    → split (to_lower text) dash ≡ ip ∷ tail_parts ask
    → validate_req to_lower text ≡ some true
unfolding validate_req ◌==◌
validate-tail_parts to_lower text ip (setting key value) e = rw (validate_req, e) refl
validate-tail_parts to_lower text ip (getting key) e = rw (validate_req, e) refl
validate-tail_parts to_lower text ip (deleting key) e = rw (validate_req, e) refl

-- A request that the serializers of a logger read is valid.
pub validate_req-text_of :
    (to_lower : Bytes → Bytes) (ip : Bytes) (ask : Ask)
    → to_lower (text_of ip ask) ≡ text_of ip ask
    → Lacks dash ip
    → IsPlain ask
    → validate_req to_lower (text_of ip ask) ≡ some true
validate_req-text_of to_lower ip ask lower no_dash plain =
    validate-tail_parts to_lower (text_of ip ask) ip ask (
      ap (λ (t : Bytes). split t dash) lower
      ∙ split-append ip (tail_of ask) dash no_dash
      ∙ ap (λ (l : List Bytes). ip ∷ l) (split-tail_of ask plain))
