-- ===== src/Node/Started.antt =====
-- What a node that came up is: the value of raft.NewRaft, or of this with a cluster of its own.
use raft_demo.Base.{◌≡◌, ◌∙◌, sym, true, false, some, [], ◌∷◌, Bytes}
use raft_demo.Node.{Config, Stores, Library, bring_up, >>=-some}

module _ (lib : Library) (config : Config) (raft_addr dir : Bytes) (stores : Stores) where
  open lib use {
    Address, Transport, Snapshots, Node, resolve_tcp_addr, new_tcp_transport, local_addr,
    new_file_snapshot_store, new_raft, bootstrap_cluster,
  }

  -- The node is what NewRaft returns, over the transport at the address and the snapshots in the
  -- directory, and nothing else was done to it.
  abbrev pub IsRaft : Transport → Node → Type 0
  IsRaft transport node =
      (address : Address) × (snapshots : Snapshots) × (resolve_tcp_addr raft_addr ≡ some address)
      × (new_tcp_transport raft_addr address ≡ some transport)
      × (new_file_snapshot_store dir 2 ≡ some snapshots)
      × (new_raft config stores snapshots transport ≡ some node)

  -- The node joins a cluster of others.
  abbrev pub IsJoining : Node → Type 0
  IsJoining node = (transport : Transport) × IsRaft transport node

  -- The node begins a cluster of which it is the only member.
  abbrev pub IsFirst : Node → Type 0
  IsFirst node =
      (transport : Transport) × (ra : Node) × IsRaft transport ra
      × (node
          ≡ bootstrap_cluster ra
              (record { id = config.local_id; address = local_addr transport } ∷ []))

  pub bring_up-IsJoining :
      (node : Node)
      → bring_up lib config raft_addr dir (some stores) false ≡ some node
      → IsJoining node
  unfolding bring_up
  bring_up-IsJoining node h =
      let (address, resolved, h1) = >>=-some (resolve_tcp_addr raft_addr) _ node h in
      let (transport, made, h2) = >>=-some (new_tcp_transport raft_addr address) _ node h1 in
      let (snapshots, stored, h3) = >>=-some (new_file_snapshot_store dir 2) _ node h2 in
      let (ra, started, h4) = >>=-some (new_raft config stores snapshots transport) _ node h3 in
      (transport, (address, snapshots, resolved, made, stored, started ∙ h4))

  pub bring_up-IsFirst :
      (node : Node)
      → bring_up lib config raft_addr dir (some stores) true ≡ some node
      → IsFirst node
  unfolding bring_up
  bring_up-IsFirst node h =
      let (address, resolved, h1) = >>=-some (resolve_tcp_addr raft_addr) _ node h in
      let (transport, made, h2) = >>=-some (new_tcp_transport raft_addr address) _ node h1 in
      let (snapshots, stored, h3) = >>=-some (new_file_snapshot_store dir 2) _ node h2 in
      let (ra, started, h4) = >>=-some (new_raft config stores snapshots transport) _ node h3 in
      let same : bootstrap_cluster ra
            (record { id = config.local_id; address = local_addr transport } ∷ [])
          ≡ node =
        cc in
      (transport, ra, (address, snapshots, resolved, made, stored, started), sym same)
