-- ===== src/Webkvstore/Service/Listening.antt =====
-- webkvstore/webserver/service.go: New, Start, Close and Addr of Service.
use raft_demo.Base.{◌≡◌, Bool, true, false, Option, none, some, Bytes, if◌then◌else◌, arith}

-- The fields of Service without its store: the address, and the listener, which is nil at first.
pub record Service : Type 0 where
  pub addr : Bytes
  pub ln : Option Bytes

-- New
unfoldable pub new : Bytes → Service
new addr = record { addr = addr; ln = none }

-- The process of a service: whether a handler is registered for "/" in the mux of net/http, and
-- whether the goroutine of Start serves.
pub record Process : Type 0 where
  pub registered : Bool
  pub serving : Bool

-- How the calls end: with an error that is returned, in the next state, at a panic, or with the
-- process, by log.Fatalf.
pub data Result : Type 0 where
  refused : Result
  goes_on : Process → Service → Result
  panicked : Result
  fatal : Result

-- Start, where `binds` says whether net.Listen takes an address. A second handler for a pattern
-- makes http.Handle panic.
unfoldable pub start : (Bytes → Bool) → Process → Service → Result
start binds p s = elim (binds s.addr) [
  | false ↦ refused
  | true ↦
      if p.registered
      then panicked
      else goes_on (record { registered = true; serving = true }) (record s { ln = some s.addr })
]

-- Close, and the goroutine, whose Serve returns with an error when its listener is closed
unfoldable pub close : Process → Service → Result
close p s = elim s.ln [ none ↦ panicked | some ln ↦ if p.serving then fatal else goes_on p s ]

-- Addr; `none` is the panic of a service that was not started
unfoldable pub addr : Service → Option Bytes
addr s = s.ln

-- the call behind one that goes on
abbrev pub then_call : Result → (Process → Service → Result) → Result
then_call (goes_on p s) call = call p s
then_call refused call = refused
then_call panicked call = panicked
then_call fatal call = fatal

-- A service that could be started ends its process when it is closed, and a second one that is
-- started in the process makes it panic, wherever it can listen.
pub start-close :
    (binds : Bytes → Bool) (first second : Bytes)
    → binds first ≡ true
    → binds second ≡ true
    → let fresh : Process = record { registered = false; serving = false } in
      let started = start binds fresh (new first) in
      (then_call started close ≡ fatal)
      × (then_call started (λ p s. start binds p (new second)) ≡ panicked)
unfolding start close new
start-close binds first second b b' = ground (arith, b, b')
