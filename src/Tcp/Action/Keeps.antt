-- ===== src/Tcp/Action/Keeps.antt =====
-- Invariants of actions, one rule for each way to build an action.
use tipy.Common.{Bool, true, false, if◌then◌else◌}
use tipy.Tcp.Types.{Tcpcb}
use tipy.Tcp.Action.{Action, pure, gets, ◌>>=◌}

-- an action that leads from blocks with `P` to blocks with `P`
pub record Keeps {R A : Type 0} (P : Tcpcb R → Type 0) (action : Action R A) : Type 0 where
  pub at : (c : Tcpcb R) → P c → P (action c).1

module _ {R A : Type 0} {P : Tcpcb R → Type 0} where
  pub Keeps-bind :
      {B : Type 0} (first : Action R B) (next : B → Action R A)
      → Keeps P first
      → ((b : B) → Keeps P (next b))
      → Keeps P (first >>= next)
  unfolding ◌>>=◌
  Keeps-bind first next before behind = record {
    at = λ c p. let (b, c') = first c in (behind b).at c' (before.at c p);
  }

  pub Keeps-if :
      (test : Bool) (whenever otherwise : Action R A)
      → Keeps P whenever
      → Keeps P otherwise
      → Keeps P (if test then whenever else otherwise)
  Keeps-if false whenever otherwise on off = off
  Keeps-if true whenever otherwise on off = on

  pub Keeps-gets : (read : Tcpcb R → A) → Keeps P (gets read)
  unfolding gets
  Keeps-gets read = record { at = λ c p. p }

  pub Keeps-pure : (result : A) → Keeps P (pure result)
  unfolding pure
  Keeps-pure result = record { at = λ c p. p }

pub ruleset keeps_rules = (Keeps-bind, Keeps-if, Keeps-gets, Keeps-pure)
