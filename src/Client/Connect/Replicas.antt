-- ===== src/Client/Connect/Replicas.antt =====
-- The number of replicas in the configuration of a client, and their addresses.
use raft_demo.Base.{
  ℕ, zero, suc, ◌+◌, ◌<◌, ◌≡◌, refl, sym, ap, append-nil, ◌∙◌, Bool, true, Option, none, some, List,
  [], ◌∷◌, ◌++◌, Bytes, replicate, length, All, arith, ◌-◌, ◌⊎◌, inl, inr, Bool-cases, ltb, eqb,
  if◌then◌else◌,
}
use raft_demo.Client.Commands.{Conn}
use raft_demo.Client.Connect.{
  new_conn, Connected, connected, refused, panicked, connect_rest, connect, Written, done, crashed,
  write_each,
}

-- new connections, and nil for the places that are left
abbrev pub opened : ℕ → ℕ → List (Option Conn)
opened n free = replicate n (some new_conn) ++ replicate free none

module _ (dials : Bytes → Bool) where
  abbrev pub AllDial : List Bytes → Type 0
  AllDial = All (λ v. dials v ≡ true)

  connect_rest-opened :
      (svr_ips : List Bytes) (free : ℕ)
      → AllDial svr_ips
      → connect_rest dials (length svr_ips + free) svr_ips
        ≡ connected (opened (length svr_ips) free)
  unfolding connect_rest
  connect_rest-opened [] free h =
      (let same : 0 + free ≡ free = omega arith in
        ap (λ (m : ℕ). connected (replicate m none)) same)
  connect_rest-opened (v ∷ vs) free (h, hs) =
      let same : suc (length vs) + free ≡ suc (length vs + free) = omega arith in
      rw (same, connect_rest, h, connect_rest-opened vs free hs)

  connect_rest-panicked :
      (svr_ips : List Bytes) (rep : ℕ)
      → AllDial svr_ips
      → rep < length svr_ips
      → connect_rest dials rep svr_ips ≡ panicked
  unfolding connect_rest
  connect_rest-panicked [] rep h l = absurd (omega arith)
  connect_rest-panicked (v ∷ vs) zero h l = refl
  connect_rest-panicked (v ∷ vs) (suc rep) (h, hs) l =
      rw (connect_rest, h, connect_rest-panicked vs rep hs (omega arith))

-- the connections that have carried one message
abbrev pub told : ℕ → Bytes → List (Option Conn)
told n message = replicate n (some (record new_conn { sent = message }))

-- with as many places as addresses there is a connection to every replica
pub connect-told :
    (dials : Bytes → Bool) (svr_ips : List Bytes)
    → AllDial dials svr_ips
    → connect dials (length svr_ips) svr_ips ≡ connected (told (length svr_ips) [])
unfolding connect
connect-told dials svr_ips h =
    let n = length svr_ips in
    let same : n + 0 ≡ n = omega arith in
    ap (λ (m : ℕ). connect_rest dials m svr_ips) (sym same)
    ∙ connect_rest-opened dials svr_ips 0 h
    ∙ ap connected (append-nil (told n []))

order : (m n : ℕ) → (m < n) ⊎ ((d : ℕ) × (m ≡ n + d))
order m n = elim (Bool-cases (ltb m n)) [
  | inl less ↦ inl (ground (arith, less))
  | inr more ↦ inr (m - n, ground (arith, more))
]

write_each-told :
    (n : ℕ) (message : Bytes) → write_each (opened n 0) message ≡ done (told n message)
unfolding write_each
write_each-told zero message = refl
write_each-told (suc n) message = rw (write_each, write_each-told n message)

write_each-crashed :
    (n free : ℕ) (message : Bytes) → write_each (opened n (suc free)) message ≡ crashed
unfolding write_each
write_each-crashed zero free message = refl
write_each-crashed (suc n) free message = rw (write_each, write_each-crashed n free message)

-- Connect and the first message behind it; an error of Connect ends the client
abbrev pub first_message : Connected → Bytes → Option Written
first_message (connected svrs) message = some (write_each svrs message)
first_message refused message = none
first_message panicked message = some crashed

-- When every address in SvrIps can be dialled, then the first message behind Connect goes to every
-- replica and without an error if Rep is the number of the addresses. If it is not, the client
-- crashes: in Connect where there are more addresses, and at the message where there are fewer.
pub connect-write_each :
    (dials : Bytes → Bool) (rep : ℕ) (svr_ips : List Bytes) (message : Bytes)
    → AllDial dials svr_ips
    → first_message (connect dials rep svr_ips) message
      ≡ some (if eqb rep (length svr_ips) then done (told rep message) else crashed)
unfolding connect
connect-write_each dials rep svr_ips message h = elim (order rep (length svr_ips)) [
  | inl less ↦ rw (connect_rest-panicked dials svr_ips rep h less) (ground arith)
  | inr (zero, e) ↦
      let n = length svr_ips in
      let same : rep ≡ n = omega arith in
      ap (λ (m : ℕ). first_message (connect_rest dials m svr_ips) message) e
      ∙ ap (λ (c : Connected). first_message c message) (connect_rest-opened dials svr_ips 0 h)
      ∙ ap some (write_each-told n message)
      ∙ ground (arith, same, ap (λ (m : ℕ). done (told m message)) same)
  | inr (suc free, e) ↦
      let n = length svr_ips in
      ap (λ (m : ℕ). first_message (connect_rest dials m svr_ips) message) e
      ∙ ap (λ (c : Connected). first_message c message)
          (connect_rest-opened dials svr_ips (suc free) h)
      ∙ ap some (write_each-crashed n free message)
      ∙ ground arith
]
