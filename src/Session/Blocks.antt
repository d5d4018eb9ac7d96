-- ===== src/Session/Blocks.antt =====
-- Sequences of commands that all return: the blocks that stay allocated.
use matlab_zmq.Prelude.{
  ◌≡◌, ◌∙◌, refl, sym, ap, List, [], ◌∷◌, ◌++◌, ℕ, suc, ◌≤◌, length, arith, if◌then◌else◌,
}
use matlab_zmq.Mex.Host.{Host}
use matlab_zmq.Mex.Memory.{State}
use matlab_zmq.Mex.Exec.{returned, Outcome, MexError}
use matlab_zmq.Mex.Exec.Ends.{Ends, returns, throws}
use matlab_zmq.Mex.Exec.Ends
use matlab_zmq.Session.{Command, exec}
use matlab_zmq.Session.Spec.{Thrown, Blocks, Allowed, leaves_block}
use matlab_zmq.Session.Laws.{IsDocumented, exec-Ends}

-- Each command returns. They are listed newest first.
pub data Runs (H : Host) (s : State H) : List (Command H) → State H → Type 0 where
  start : Runs H s [] s
  after :
      {cs : List (Command H)} {t u : State H} (c : Command H)
      → Runs H s cs t
      → Allowed H c
      → exec H c t ≡ (returned tt, u)
      → Runs H s (c ∷ cs) u

-- The number of commands that may leave a block.
abbrev pub leaving : (H : Host) → List (Command H) → ℕ
leaving H [] = 0
leaving H (c ∷ cs) = let rest = leaving H cs in if leaves_block H c then suc rest else rest

-- The blocks that stay, newest first, above those that were there.
pub record Stays (n : ℕ) (before after : List ℕ) : Type 0 where
  pub left : List ℕ
  pub above : after ≡ left ++ before
  pub few : length left ≤ n

one_more :
    {H : Host} (c : Command H) (cs : List (Command H)) (l m k : List ℕ)
    → Blocks H c m k
    → Stays (leaving H cs) l m
    → Stays (leaving H (c ∷ cs)) l k
one_more c cs l m k (Blocks.all_freed e) x = record {
  left = x.left;
  above = e ∙ x.above;
  few = ground (arith, x.few);
}
one_more c cs l m k (Blocks.one_left may n e) x = record {
  left = n ∷ x.left;
  above = e ∙ ap (λ z. n ∷ z) x.above;
  few = ground (arith, x.few);
}

returned_state :
    {H : Host} {Q : State H → Type 0} {E : MexError → State H → Type 0}
    {r : Outcome (Unit {0}) × State H} (u : State H)
    → Ends (λ _ t. Q t) E r
    → r ≡ (returned tt, u)
    → Q u
returned_state u (returns q) e = rw (sym (ap (λ z. z.1) e)) q
returned_state u (throws q) e = cc

module _ (H : Host) (doc : IsDocumented H) (s : State H) where
  -- On a host that keeps what MATLAB and libzmq document, and for commands on arguments that their
  -- callers owe: where every command returns, the blocks that are allocated at the end are those of
  -- the start, untouched, and at most one more for each `socket` and each `version`; without these
  -- two, they are those of the start.
  pub Runs-Stays :
      (cs : List (Command H)) (t : State H) → Runs H s cs t → Stays (leaving H cs) s.live t.live
  Runs-Stays [] t start = record { left = []; above = refl; few = omega arith }
  Runs-Stays (c ∷ cs) u (after {t = t} d r allowed e) =
      one_more c cs s.live t.live u.live
        (returned_state {Q = λ v. Blocks H c t.live v.live} u
          (Ends.mono {E = λ e v. Thrown c t v} (exec-Ends H doc c t allowed) (λ _ v q. q.blocks)
            (λ e v q. q))
          e)
        (Runs-Stays cs t r)
