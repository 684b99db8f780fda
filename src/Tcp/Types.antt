-- ===== src/Tcp/Types.antt =====
-- The data of tipy/protocols/tcp: states and events (tcp.py), the parsed segment (parser.py), the
-- arguments of `tx_tcp`, and the control block (tcpcb.py).
use tipy.Common.{ℕ, Bool, false, Option, none, List, []}
use tipy.Common.Int.{ℤ, pos}
use tipy.Buffer.Ring.{RingBuffer}
use tipy.Buffer.Ring
use tipy.Buffer.Recoverable.{RRingBuffer}
use tipy.Buffer.Recoverable

-- `STATES`
pub data State : Type 0 where
  listen syn_sent syn_recv estab fin_wait_1 fin_wait_2 close_wait closing last_ack : State
  time_wait closed : State

-- The fields of a received segment that the state machine reads. `flags` is its bits; `mss` is what
-- a reading of `options.get(TCP_MSS_KIND)` gives, where `none` is an exception; `payload` is the parser's `data`, whose length `dlen` is at first.
pub record Segment : Type 0 where
  pub seq : ℕ
  pub ack_seq : ℕ
  pub ack : Bool
  pub rst : Bool
  pub syn : Bool
  pub fin : Bool
  pub window : ℕ
  pub mss : Option (Option ℕ)
  pub dlen : ℕ
  pub payload : List ℕ

-- The arguments of a call of `tx_tcp`. The addresses and ports are always the block's.
pub record TxSegment : Type 0 where
  pub seq : ℕ
  pub ack_seq : ℕ
  pub ack : Bool
  pub psh : Bool
  pub rst : Bool
  pub syn : Bool
  pub fin : Bool
  pub window : ℤ
  pub mss_option : Bool
  pub payload : List ℕ

-- What the state machine does to the rest of the stack: `tx_tcp`, `notify` on a condition,
-- `schedule_event` of a SEND event, and `remove_tcpcb`.
pub data Effect : Type 0 where
  transmit : TxSegment → Effect
  notify_connect notify_recv notify_send : Effect
  schedule_send : Effect
  removed : Effect

-- How an event handler ends: by a return, by the `TypeError` of a call of `None`, by the exception
-- of options that cannot be read, or not at all (its fuel runs out in the loop).
pub data Outcome : Type 0 where
  done type_error parse_error looping : Outcome

-- `TCP_ACCEPT_AND_HANDLE`, `TCP_ACCEPT_BUT_BUFFER`, `TCP_DROP`
pub data Verdict : Type 0 where
  accept_and_handle accept_but_buffer drop_segment : Verdict

-- The errors that the state machine stores in `so.error`; `no_error` is 0.
pub data SoError : Type 0 where
  no_error econnrefused econnreset : SoError

-- Python's floats: a type `R` with the operations that the retransmission timer uses.
pub record FloatOps (R : Type 0) : Type 0 where
  pub ratio : ℕ → ℕ → R
  pub add : R → R → R
  pub sub : R → R → R
  pub mul : R → R → R
  pub div : R → R → R
  pub abs : R → R
  pub lt : R → R → Bool

-- What a timer does when it fires: schedule an RTX event, or call `remove_tcpcb`.
pub data TimerCall : Type 0 where
  schedule_rtx call_remove_tcpcb : TimerCall

pub record TimerTask (R : Type 0) : Type 0 where
  pub expire_after : R
  pub call : TimerCall
  pub deleted : Bool

-- `TCPCB`, without its constants (addresses, ports, conditions, lock, core). `linger_on` is the
-- test of `sock_opt` against `_SO_LINGER_ON`. The last fields stand for what the handlers reach
-- through the block: `so.error`, the calls made so far (newest first), the timer tasks ever
-- scheduled (a task is named by its index), and the clock with the number of its readings.
pub record Tcpcb (R : Type 0) : Type 0 where
  pub rcv_buf : RingBuffer
  pub snd_buf : RRingBuffer
  pub tcp_data_start : ℕ
  pub tcp_data_len : ℕ
  pub snd_una : ℕ
  pub snd_nxt : ℕ
  pub snd_wnd : ℕ
  pub snd_max : ℕ
  pub snd_wl1 : ℕ
  pub snd_wl2 : ℕ
  pub rcv_nxt : ℕ
  pub rcv_wnd : ℤ
  pub rcv_adv : ℕ
  pub iss : ℕ
  pub irs : ℕ
  pub remote_mss : ℕ
  pub ack_now : Bool
  pub sent_fin : Bool
  pub rtx_timer : Option ℕ
  pub time_wait_timer : Option ℕ
  pub rto : R
  pub rtt : Option R
  pub srtt : Option R
  pub rttvar : Option R
  pub challenge_ack_limit : ℕ
  pub last_challenge_ack_timestamp : ℕ
  pub close_requested : Bool
  pub shutdown_requested : Bool
  pub linger_on : Bool
  pub state : State
  pub prev_state : State
  pub so_error : SoError
  pub effects : List Effect
  pub timers : List (TimerTask R)
  pub monotonic_ns : ℕ → ℕ
  pub reads : ℕ

-- DEFAULT_RECV_BUFF, DEFAULT_SEND_BUFF, DEFAULT_RCV_WND
abbrev pub default_size : ℕ
default_size = 0xffff

-- MAX_TCP_CHALLENGE_ACK_LIMIT, TCP_CHALLENGE_ACK_RATE_HZ
abbrev pub max_tcp_challenge_ack_limit : ℕ
max_tcp_challenge_ack_limit = 100

abbrev pub tcp_challenge_ack_rate_hz : ℕ
tcp_challenge_ack_rate_hz = 5

-- `TCPCB.__init__`. `iss` stands for the random initial sequence number.
unfoldable pub init :
    {R : Type 0} → ⦃fl : FloatOps R⦄ → (iss : ℕ) → (linger_on : Bool) → (ℕ → ℕ) → Tcpcb R
unfolding Ring.init Recoverable.init
init ⦃fl⦄ iss linger_on clock = record {
  rcv_buf = Ring.init default_size;
  snd_buf = Recoverable.init default_size;
  tcp_data_start = 0;
  tcp_data_len = 0;
  snd_una = 0;
  snd_nxt = 0;
  snd_wnd = 0;
  snd_max = 0;
  snd_wl1 = 0;
  snd_wl2 = 0;
  rcv_nxt = 0;
  rcv_wnd = pos default_size;
  rcv_adv = 0;
  iss = iss;
  irs = 0;
  remote_mss = 0;
  ack_now = false;
  sent_fin = false;
  rtx_timer = none;
  time_wait_timer = none;
  rto = fl.ratio 1 1;
  rtt = none;
  srtt = none;
  rttvar = none;
  challenge_ack_limit = max_tcp_challenge_ack_limit;
  last_challenge_ack_timestamp = clock 0;
  close_requested = false;
  shutdown_requested = false;
  linger_on = linger_on;
  state = closed;
  prev_state = closed;
  so_error = no_error;
  effects = [];
  timers = [];
  monotonic_ns = clock;
  reads = 1;
}
