-- ===== src/Tcp/Action.antt =====
-- A handler of the state machine as an action on the control block, which Python mutates.
pub mod Keeps
use tipy.Common.{ℕ, ◌+◌, Bool, List, ◌∷◌, if◌then◌else◌}
use tipy.Tcp.Types.{Tcpcb, Effect}

abbrev pub Action : Type 0 → Type 0 → Type 0
Action R A = Tcpcb R → A × Tcpcb R

module _ {R : Type 0} where
  unfoldable pub pure : {A : Type 0} → A → Action R A
  pure a c = (a, c)

  unfoldable pub gets : {A : Type 0} → (Tcpcb R → A) → Action R A
  gets f c = (f c, c)

  unfoldable pub modify : (Tcpcb R → Tcpcb R) → Action R (Unit {0})
  modify f c = (tt, f c)

  infixl 5 ◌>>=◌ ◌>>◌
  -- opening this opens `pure`, `gets` and `modify` too
  unfoldable pub ◌>>=◌ : {A B : Type 0} → Action R A → (A → Action R B) → Action R B
  unfolding pure gets modify
  ◌>>=◌ m f c = let (a, c') = m c in f a c'

  abbrev pub ◌>>◌ : {A B : Type 0} → Action R A → Action R B → Action R B
  m >> k = m >>= λ _. k

  abbrev pub skip : Action R (Unit {0})
  skip = pure tt

  -- `if b: m`
  abbrev pub when : Bool → Action R (Unit {0}) → Action R (Unit {0})
  when b m = if b then m else skip

  -- one more call of the rest of the stack
  unfoldable pub emit : Effect → Action R (Unit {0})
  emit e = modify λ c. record c { effects = e ∷ c.effects }

  -- `monotonic_ns()`
  unfoldable pub read_clock : Action R ℕ
  read_clock c = (c.monotonic_ns c.reads, record c { reads = c.reads + 1 })
