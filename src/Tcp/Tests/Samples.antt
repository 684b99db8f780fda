-- ===== src/Tcp/Tests/Samples.antt =====
-- Test data: whole numbers in place of floats, a new block, and segments.
use tipy.Common.{ℕ, ◌+◌, ◌-◌, ◌*◌, ◌/◌, true, false, some, [], ◌∷◌, ltb}
use tipy.Tcp.Types.{Segment, Tcpcb, FloatOps, init}
use tipy.Tcp.Machine.{connect, handle}

-- whole numbers in place of floats
abbrev pub nat_floats : FloatOps ℕ
nat_floats = record {
  ratio = λ a b. a / b;
  add = λ a b. a + b;
  sub = λ a b. a - b;
  mul = λ a b. a * b;
  div = λ a b. a / b;
  abs = λ a. a;
  lt = ltb;
}

abbrev pub clock : ℕ → ℕ
clock k = k

abbrev pub new_block : Tcpcb ℕ
new_block = init ⦃fl = nat_floats⦄ 5 false clock

abbrev pub connecting : Tcpcb ℕ
connecting = (handle ⦃fl = nat_floats⦄ connect new_block).1

abbrev pub syn_ack : Segment
syn_ack = record {
  seq = 100;
  ack_seq = 6;
  ack = true;
  rst = false;
  syn = true;
  fin = false;
  window = 1000;
  mss = some (some 2);
  dlen = 0;
  payload = [];
}

abbrev pub data_segment : Segment
data_segment = record syn_ack { seq = 101; syn = false; dlen = 3; payload = 7 ∷ 8 ∷ 9 ∷ [] }

abbrev pub in_flight : Tcpcb ℕ
in_flight = record new_block {
  snd_una = 5;
  snd_nxt = 8;
  rcv_nxt = 101;
  rcv_adv = 111;
  remote_mss = 2;
}
