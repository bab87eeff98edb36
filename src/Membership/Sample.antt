-- ===== src/Membership/Sample.antt =====
-- A cluster that meets the laws, for the examples: the list of its servers, and no errors.
use raft_demo.Base.{
  ◌≡◌, ◌≢◌, ◌↔◌, ◌⊎◌, inl, inr, Bool, true, some, List, [], ◌∷◌, Bytes, ◌==◌, eq_iff, if◌then◌else◌,
  arith, Bool-cases, subst, sym,
}
use raft_demo.Membership.Raft.{Server, In, Cluster}

abbrev pub without : Bytes → List Server → List Server
without id [] = []
without id (x ∷ xs) = let rest = without id xs in if x.id == id then rest else x ∷ rest

pub In-without :
    (id : Bytes) (xs : List Server) (x : Server) → In x (without id xs) ↔ (In x xs × (x.id ≢ id))
In-without id [] x = ((λ h. absurd h), (λ h. h.0))
In-without id (y ∷ ys) x = elim (Bool-cases (y.id == id)) [
  | inl e ↦ grind (arith, eq_iff y.id id, In-without id ys x)
  | inr e ↦ grind (arith, eq_iff y.id id, In-without id ys x)
]

abbrev pub added : List Server → Bytes → Bytes → List Server × Bool
added s id addr = (record { id = id; address = addr } ∷ without id s, true)

pub In-added :
    (s : List Server) (id addr : Bytes) (x : Server)
    → In x (added s id addr).0 ↔ ((x ≡ record { id = id; address = addr }) ⊎ (In x s × (x.id ≢ id)))
In-added s id addr x =
    let (to, from) = In-without id s x in
    (
      (λ h. elim h [ inl e ↦ inl e | inr later ↦ inr (to later) ]),
      (λ h. elim h [ inl e ↦ inl e | inr old ↦ inr (from old) ]),
    )

pub same_members :
    (s servers : List Server) → some s ≡ some servers → (x : Server) → In x s ↔ In x servers
same_members s servers e x =
    let same : s ≡ servers = cc e in ((λ h. subst (In x) same h), (λ h. subst (In x) (sym same) h))

abbrev pub sample_cluster : Cluster
sample_cluster = record {
  State = List Server;
  Member = λ s x. In x s;
  configuration = some;
  remove_server = λ s id. (without id s, true);
  add_voter = added;
  add_nonvoter = added;
  configuration_members = same_members;
  removes = λ s id h x. In-without id s x;
  adds_voter = λ s id addr h x. In-added s id addr x;
  adds_nonvoter = λ s id addr h x. In-added s id addr x;
}
