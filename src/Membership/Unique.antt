-- ===== src/Membership/Unique.antt =====
-- The configuration after JoinRaft of kvstore/store.go: whose ID and address are in it.
use raft_demo.Base.{
  ◌≡◌, ◌≢◌, ◌↔◌, ◌⊎◌, inl, inr, refl, sym, ap, subst, Bool, true, false, some, List, [], ◌∷◌, ◌&&◌,
  ◌||◌, ◌==◌, eq_iff, Bytes, arith, Bool-cases,
}
use raft_demo.Membership.Raft.{Server, In, Cluster}
use raft_demo.Membership.{
  Cleared, already_member, not_removed, cleared, clear, add, settle, join_raft,
}

-- In a configuration no two servers have the same ID or the same address.
pub record IsUnique (servers : List Server) : Type 0 where
  pub ids : (x y : Server) → In x servers → In y servers → x.id ≡ y.id → x ≡ y
  pub addresses : (x y : Server) → In x servers → In y servers → x.address ≡ y.address → x ≡ y

module _ (c : Cluster) (id addr : Bytes) where
  open c use {State, Member, configuration, remove_server, add_voter, add_nonvoter}

  abbrev pub joining : Server
  joining = record { id = id; address = addr }

  -- the servers that have the ID or the address of the joining node
  abbrev pub Clashes : Server → Type 0
  Clashes x = (x.id ≡ id) ⊎ (x.address ≡ addr)

  -- What holds at each round, with `reps` yet to come.
  record IsCleared (servers : List Server) (s : State) (reps : List Server) : Type 0 where
    known : (x : Server) → Member s x → In x servers
    kept : (x : Server) → In x servers → ¬ Clashes x → Member s x
    left : (x : Server) → Member s x → Clashes x → In x reps
    own : In joining servers → Member s joining
    rest : (x : Server) → In x reps → In x servers

  -- What the loop ends with.
  abbrev Ends : List Server → Cleared c → Type 0
  Ends servers (already_member s) =
      (In joining servers × Member s joining)
      × ((x : Server) → Member s x → In x servers)
      × ((x : Server) → In x servers → ¬ Clashes x → Member s x)
  Ends servers (not_removed s) = Unit
  Ends servers (cleared s) = IsCleared servers s []

  skip :
      {servers reps : List Server} {s : State} {rep : Server}
      → ¬ Clashes rep
      → IsCleared servers s (rep ∷ reps)
      → IsCleared servers s reps
  skip {rep} other i = record {
    known = i.known;
    kept = i.kept;
    left = λ x m k. elim (i.left x m k) [ inl e ↦ absurd (other (subst Clashes e k)) | inr h ↦ h ];
    own = i.own;
    rest = λ x h. i.rest x (inr h);
  }

  drop_clashing :
      {servers reps : List Server} {s : State} {rep : Server}
      → IsUnique servers
      → Clashes rep
      → rep ≢ joining
      → (remove_server s rep.id).1 ≡ true
      → IsCleared servers s (rep ∷ reps)
      → IsCleared servers (remove_server s rep.id).0 reps
  drop_clashing {servers} {s} {rep} u clash other removed i =
      let now = c.removes s rep.id removed in
      record {
        known = λ x m. i.known x ((now x).0 m).0;
        kept = λ x h k. (now x).1 (
          i.kept x h k,
          λ e. k (subst Clashes (sym (u.ids x rep h (i.rest rep (inl refl)) e)) clash),
        );
        left = λ x m k.
            let m' = (now x).0 m in
            elim (i.left x m'.0 k) [
              | inl e ↦ absurd (m'.1 (ap (λ (y : Server). y.id) e))
              | inr h ↦ h
            ];
        own = λ h.
            (now joining).1
              (i.own h, λ e. other (sym (u.ids joining rep h (i.rest rep (inl refl)) e)));
        rest = λ x h. i.rest x (inr h);
      }

  Clashes-of_test : (x : Server) → (x.id == id || x.address == addr) ≡ true → Clashes x
  Clashes-of_test x e = ground (arith, eq_iff x.id id, eq_iff x.address addr)

  not-Clashes-of_test : (x : Server) → (x.id == id || x.address == addr) ≡ false → ¬ Clashes x
  not-Clashes-of_test x e k = ground (arith, eq_iff x.id id, eq_iff x.address addr)

  joining_of_test : (x : Server) → (x.address == addr && x.id == id) ≡ true → x ≡ joining
  joining_of_test x e = ground (arith, eq_iff x.id id, eq_iff x.address addr)

  ne-joining_of_test : (x : Server) → (x.address == addr && x.id == id) ≡ false → x ≢ joining
  ne-joining_of_test x e p = ground (arith, eq_iff x.id id, eq_iff x.address addr, p)

  clear-Ends :
      (servers reps : List Server) (s : State)
      → IsUnique servers
      → IsCleared servers s reps
      → Ends servers (clear c s id addr reps)
  unfolding clear
  clear-Ends servers [] s u i = i
  clear-Ends servers (rep ∷ reps) s u i = elim (Bool-cases (rep.id == id || rep.address == addr)) [
    | inr other ↦
        rw (clear, other) (clear-Ends servers reps s u (skip (not-Clashes-of_test rep other) i))
    | inl clash ↦ elim (Bool-cases (rep.address == addr && rep.id == id)) [
      | inl same ↦
          let found =
            subst (λ x. In x servers) (joining_of_test rep same) (i.rest rep (inl refl)) in
          rw (clear, clash, same) ((found, i.own found), i.known, i.kept)
      | inr differs ↦ elim (Bool-cases ((remove_server s rep.id).1)) [
        | inl removed ↦
            rw (clear, clash, differs, removed)
              (clear-Ends servers reps (remove_server s rep.id).0 u (
                drop_clashing u (Clashes-of_test rep clash) (ne-joining_of_test rep differs) removed
                  i))
        | inr refused ↦ rw (clear, clash, differs, refused) tt
      ]
    ]
  ]

  -- What a join without an error makes of the members.
  pub record Joined (s s' : State) : Type 0 where
    pub member : Member s' joining
    pub alone : (x : Server) → Member s' x → Clashes x → x ≡ joining
    pub others : (x : Server) → ¬ Clashes x → Member s' x ↔ Member s x

  add_lem :
      (s : State) (voter : Bool)
      → (add c s id addr voter).1 ≡ true
      → (x : Server)
      → Member (add c s id addr voter).0 x ↔ ((x ≡ joining) ⊎ (Member s x × (x.id ≢ id)))
  add_lem s true h = c.adds_voter s id addr h
  add_lem s false h = c.adds_nonvoter s id addr h

  settle-Joined :
      (s : State) (servers : List Server)
      → ((x : Server) → Member s x ↔ In x servers)
      → IsUnique servers
      → (r : Cleared c) (voter : Bool) → Ends servers r
      → (settle c r id addr voter).1 ≡ true
      → Joined s (settle c r id addr voter).0
  settle-Joined s servers now u (already_member s') voter ((own, member), known, kept) h = record {
    member = member;
    alone = λ x m k. elim k [
      | inl e ↦ u.ids x joining (known x m) own e
      | inr e ↦ u.addresses x joining (known x m) own e
    ];
    others = λ x k. ((λ m. (now x).1 (known x m)), (λ m. kept x ((now x).0 m) k));
  }
  settle-Joined s servers now u (not_removed s') voter e h = cc
  settle-Joined s servers now u (cleared s') voter i h =
      let new = add_lem s' voter h in
      record {
        member = (new joining).1 (inl refl);
        alone = λ x m k. elim ((new x).0 m) [ inl e ↦ e | inr old ↦ absurd (i.left x old.0 k) ];
        others = λ x k. (
          (λ m. elim ((new x).0 m) [
            | inl e ↦ absurd (k (subst Clashes (sym e) (inl refl)))
            | inr old ↦ (now x).1 (i.known x old.0)
          ]),
          (λ m. (new x).1 (inr (i.kept x ((now x).0 m) k, λ e. k (inl e)))),
        );
      }

  -- If the configuration of the cluster has every ID and every address once, then after a JoinRaft
  -- without an error the node is a member, no other member has its ID or its address, and the other
  -- servers are members exactly if they were before.
  pub join_raft-Joined :
      (s : State) (servers : List Server) (voter : Bool)
      → configuration s ≡ some servers
      → IsUnique servers
      → (join_raft c s id addr voter).1 ≡ true
      → Joined s (join_raft c s id addr voter).0
  unfolding join_raft
  join_raft-Joined s servers voter e u h =
      let now = c.configuration_members s servers e in
      let begun : IsCleared servers s servers = record {
        known = λ x m. (now x).0 m;
        kept = λ x m k. (now x).1 m;
        left = λ x m k. (now x).0 m;
        own = λ m. (now joining).1 m;
        rest = λ x m. m;
      } in
      rw (join_raft, e)
        (settle-Joined s servers now u (clear c s id addr servers) voter
          (clear-Ends servers servers s u begun) (rw (join_raft, e) at h))
