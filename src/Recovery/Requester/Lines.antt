-- ===== src/Recovery/Requester/Lines.antt =====
-- The line of a state request, as the replicas take it apart.
use raft_demo.Base.{
  ℕ, ◌≡◌, refl, ap, ◌∙◌, List, [], ◌∷◌, ◌++◌, append_assoc, Bytes, dash, newline, Lacks,
  Lacks-append, arith,
}
use raft_demo.Go.Strings.{split}
use raft_demo.Go.Strings.Laws.{split-append, split-Lacks}
use raft_demo.Go.Bufio.{read_string, read_string-line}
use raft_demo.Go.Strconv.{itoa}
use raft_demo.Go.Strconv.Laws.{itoa-Lacks}
use raft_demo.Recovery.Requester.{state_request}

-- An address that can stand in a state request.
pub record IsAddress (s : Bytes) : Type 0 where
  pub no_dash : Lacks dash s
  pub one_line : Lacks newline s

module _ (local_addr : Bytes) (a : IsAddress local_addr) (index : ℕ) where
  line : Bytes
  line = local_addr ++ (dash ∷ itoa index)

  line_lem : state_request local_addr index ≡ line ++ newline ∷ []
  unfolding state_request line
  line_lem = simp append_assoc

  line-Lacks : Lacks newline line
  unfolding line
  line-Lacks =
      Lacks-append newline local_addr _ a.one_line
        ((λ e. omega arith), itoa-Lacks newline refl index)

  pub read_string-state_request :
      read_string (state_request local_addr index) ≡ state_request local_addr index
  read_string-state_request = rw line_lem (read_string-line line [] line-Lacks)

  pub split-state_request :
      split (state_request local_addr index) dash ≡ local_addr ∷ (itoa index ++ newline ∷ []) ∷ []
  unfolding state_request
  split-state_request =
      split-append local_addr _ dash a.no_dash
      ∙ ap (λ (l : List Bytes). local_addr ∷ l)
          (split-Lacks (itoa index ++ newline ∷ []) dash (
            Lacks-append dash (itoa index) _ (itoa-Lacks dash refl index) ((λ e. omega arith), tt)))
