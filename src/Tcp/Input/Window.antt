-- ===== src/Tcp/Input/Window.antt =====
-- How the receive sequence moves: `_h_rx_seq_normal` and `_compute_rcv_wnd`.
use tipy.Common.{
  ℕ, ◌+◌, ◌-◌, ◌^◌, ◌≤◌, ◌<◌, ◌≡◌, ◌≢◌, inl, inr, refl, Bool, true, false, arith, Bool-cases, ◌&&◌,
  min, max, if◌then◌else◌, ltb, ltb→lt,
}
use tipy.Common.Int.{pos}
use tipy.Buffer.Ring
use tipy.Tcp.Seq.{seq_mod, mask32, seq_diff, seq_lt, seq_leq, seq_gt, seq_geq}
use tipy.Tcp.Seq.Order.{seq_diff_flip, seq_diff_steps, seq_diff-advance}
use tipy.Tcp.Action.{modify}
use tipy.Tcp.Input.Acks.{seq_diff_split}
use tipy.Tcp.Types.{Segment, Tcpcb, accept_and_handle, accept_but_buffer, drop_segment}
use tipy.Tcp.Input.{h_rx_seq_normal, compute_rcv_wnd, seg_len, last_seq, in_order_len}

abbrev in_order : Segment → ℕ → Bool
in_order p nxt = seq_leq p.seq nxt && seq_geq (last_seq p) nxt

last_seq_end : (p : Segment) → 0 < seg_len p → last_seq p + 1 ≡ p.seq + seg_len p
unfolding last_seq
last_seq_end p nonempty = ground arith

-- the distances that decide, for a segment of `len` numbers that reaches `nxt` and beyond
end_distances :
    (s l len nxt : ℕ)
    → s < seq_mod
    → nxt < seq_mod
    → len < 2 ^ 31
    → l + 1 ≡ s + len
    → seq_diff nxt s < len
    → (seq_diff l nxt + seq_diff nxt s + 1 ≡ len) × (seq_diff (l + 1) nxt + seq_diff nxt s ≡ len)
unfolding seq_diff
end_distances s l len nxt hs hn hl e hk = (omega arith, omega arith)

pub in_order_holds :
    (p : Segment) (nxt : ℕ)
    → p.seq < seq_mod
    → nxt < seq_mod
    → seg_len p < 2 ^ 31
    → seq_diff nxt p.seq < seg_len p
    → in_order p nxt ≡ true
in_order_holds p nxt hs hn hl hk =
    unfold seq_lt seq_leq seq_gt seq_geq in
    ground (
      arith,
      end_distances p.seq (last_seq p) (seg_len p) nxt hs hn hl (last_seq_end p (omega arith)) hk,
      seq_diff_flip p.seq nxt hs hn,
    )

-- the distance of the end of a segment that lies wholly before `nxt`
end_behind :
    (s l len nxt : ℕ)
    → s < seq_mod
    → nxt < seq_mod
    → 0 < len
    → l + 1 ≡ s + len
    → len ≤ seq_diff nxt s
    → seq_diff nxt s ≤ 2 ^ 31
    → (2 ^ 31 ≤ seq_diff l nxt) × (l ≢ nxt)
unfolding seq_diff
end_behind s l len nxt hs hn nonempty e hk half = (omega arith, grind arith)

in_order_fails :
    (p : Segment) (nxt : ℕ)
    → p.seq < seq_mod
    → nxt < seq_mod
    → 0 < seg_len p
    → seg_len p < 2 ^ 31
    → seg_len p ≤ seq_diff nxt p.seq
    → in_order p nxt ≡ false
in_order_fails p nxt hs hn nonempty hl hk =
    unfold seq_lt seq_leq seq_gt seq_geq in
    ground (
      arith,
      seq_diff_flip p.seq nxt hs hn,
      end_behind p.seq (last_seq p) (seg_len p) nxt hs hn nonempty (last_seq_end p nonempty) hk,
    )

-- whether a segment ahead of `nxt` starts before the window's end
ahead_in_window :
    (s nxt adv : ℕ)
    → s < seq_mod
    → nxt < seq_mod
    → adv < seq_mod
    → seq_diff adv nxt < 2 ^ 31
    → s ≢ nxt
    → (seq_gt s nxt && seq_lt s adv) ≡ ltb (seq_diff s nxt) (seq_diff adv nxt)
ahead_in_window s nxt adv hs hn ha window apart =
    unfold seq_lt seq_gt in
    ground (
      arith,
      seq_diff_split s adv nxt hs ha hn,
      seq_diff_flip s adv hs ha,
      seq_diff_flip s nxt hs hn,
      ltb→lt (seq_diff s nxt) (seq_diff adv nxt),
    )

-- a move that stays in a window leaves the rest of it
rest_of_window :
    (adv nxt n : ℕ)
    → adv < seq_mod
    → nxt < seq_mod
    → n ≤ seq_diff adv nxt
    → seq_diff adv (mask32 (nxt + n)) + n ≡ seq_diff adv nxt
unfolding seq_diff
rest_of_window adv nxt n ha hn le = omega arith

window_but_one :
    (adv nxt : ℕ)
    → 0 < seq_diff adv nxt
    → mask32 (seq_diff adv nxt + (seq_mod - 1)) ≡ seq_diff adv nxt - 1
unfolding seq_diff
window_but_one adv nxt h = omega arith

module _ {R : Type 0} where
  -- A segment that starts at or before RCV.NXT and reaches beyond it is accepted, while the window
  -- is open: the numbers before RCV.NXT are trimmed from its length, which does not underflow, and
  -- named as the start of its data; RCV.NXT moves over the rest, or over all of the window but its
  -- last number if that is less; so it never reaches the advertised right edge.
  pub in_order_accepted :
      (p : Segment) (c : Tcpcb R)
      → p.seq < seq_mod
      → c.rcv_nxt < seq_mod
      → c.rcv_adv < seq_mod
      → seg_len p < 2 ^ 31
      → seq_diff c.rcv_nxt p.seq < seg_len p
      → 0 < seq_diff c.rcv_adv c.rcv_nxt
      → let (v, p') = (h_rx_seq_normal p c).0 in
        let c' = (h_rx_seq_normal p c).1 in
        let k = seq_diff c.rcv_nxt p.seq in
        let window = seq_diff c.rcv_adv c.rcv_nxt in
        (v ≡ accept_and_handle)
        × (p'.dlen + k ≡ seg_len p)
        × (c'.tcp_data_start ≡ k)
        × (c'.tcp_data_len ≡ min (window - 1) (seg_len p - k))
        × (seq_diff c'.rcv_nxt c.rcv_nxt ≡ c'.tcp_data_len)
        × (seq_diff c'.rcv_adv c'.rcv_nxt + c'.tcp_data_len ≡ window)
  unfolding h_rx_seq_normal
  in_order_accepted p c hs hn ha hl hk hw =
      let (_, ends) =
        end_distances p.seq (last_seq p) (seg_len p) c.rcv_nxt hs hn hl
          (last_seq_end p (omega arith)) hk in
      let len : in_order_len p c
          ≡ min (seq_diff c.rcv_adv c.rcv_nxt - 1) (seg_len p - seq_diff c.rcv_nxt p.seq) =
        omega (arith, ends, window_but_one c.rcv_adv c.rcv_nxt hw) in
      let (small, _) = seq_diff_steps c.rcv_adv c.rcv_nxt ha hn in
      rw (in_order_holds p c.rcv_nxt hs hn hl hk) (
        refl,
        omega arith,
        refl,
        len,
        seq_diff-advance c.rcv_nxt (in_order_len p c) hn (omega (arith, len, small)),
        rest_of_window c.rcv_adv c.rcv_nxt (in_order_len p c) ha hn (omega (arith, len)),
      )

  -- Any other segment with data, SYN or FIN changes nothing: it is to be buffered exactly if it
  -- starts before the window's right edge, counted from RCV.NXT, and is otherwise dropped, as one
  -- received before is.
  pub out_of_order_kept :
      (p : Segment) (c : Tcpcb R)
      → p.seq < seq_mod
      → c.rcv_nxt < seq_mod
      → c.rcv_adv < seq_mod
      → 0 < seg_len p
      → seg_len p < 2 ^ 31
      → seq_diff c.rcv_adv c.rcv_nxt < 2 ^ 31
      → seg_len p ≤ seq_diff c.rcv_nxt p.seq
      → let ahead = seq_diff p.seq c.rcv_nxt in
        let window = seq_diff c.rcv_adv c.rcv_nxt in
        h_rx_seq_normal p c ≡ ((if ltb ahead window then accept_but_buffer else drop_segment, p), c)
  unfolding h_rx_seq_normal
  out_of_order_kept p c hs hn ha nonempty hl window old =
      let apart : p.seq ≢ c.rcv_nxt = ground (arith, seq_diff_flip p.seq c.rcv_nxt hs hn) in
      rw (in_order_fails p c.rcv_nxt hs hn nonempty hl old) (
        rw (ahead_in_window p.seq c.rcv_nxt c.rcv_adv hs hn ha window apart)
          (elim (Bool-cases (ltb (seq_diff p.seq c.rcv_nxt) (seq_diff c.rcv_adv c.rcv_nxt))) [
            | inl e ↦ rw e refl
            | inr e ↦ rw e refl
          ]))

reaches : (nxt n : ℕ) → nxt < seq_mod → n < seq_mod → seq_diff (mask32 (n + nxt)) nxt ≡ n
unfolding seq_diff
reaches nxt n hn small = omega arith

-- the right edge that `_compute_rcv_wnd` chooses
right_edge :
    (nxt adv space : ℕ)
    → nxt < seq_mod
    → adv < seq_mod
    → seq_diff adv nxt < 2 ^ 31
    → space < 2 ^ 31
    → seq_diff (if seq_gt (mask32 (space + nxt)) adv then mask32 (space + nxt) else adv) nxt
      ≡ max (seq_diff adv nxt) space
right_edge nxt adv space hn ha hw hs =
    let edge = mask32 (space + nxt) in
    let reach : seq_diff edge nxt ≡ space = reaches nxt space hn (omega arith) in
    let he : edge < seq_mod = omega arith in
    unfold seq_gt in
    ground (arith, reach, seq_diff_split edge adv nxt he ha hn, seq_diff_flip edge adv he ha)

module _ {R : Type 0} where
  -- The window becomes the free space of the receive buffer, and its right edge the farther one,
  -- from RCV.NXT, of the old edge and the end of the free space: what was advertised is never
  -- taken back.
  pub compute_rcv_wnd_lem :
      (c : Tcpcb R)
      → c.rcv_nxt < seq_mod
      → c.rcv_adv < seq_mod
      → seq_diff c.rcv_adv c.rcv_nxt < 2 ^ 31
      → Ring.free_space c.rcv_buf < 2 ^ 31
      → let c' = (compute_rcv_wnd c).1 in
        let space = Ring.free_space c.rcv_buf in
        (c'.rcv_wnd ≡ pos space)
        × (c'.rcv_nxt ≡ c.rcv_nxt)
        × (seq_diff c'.rcv_adv c.rcv_nxt ≡ max (seq_diff c.rcv_adv c.rcv_nxt) space)
  unfolding compute_rcv_wnd modify
  compute_rcv_wnd_lem c hn ha hw hs =
      (refl, refl, right_edge c.rcv_nxt c.rcv_adv (Ring.free_space c.rcv_buf) hn ha hw hs)
