-- ===== src/Tcp/Input/Delivery.antt =====
-- What `_append_rcv_data` puts into the receive buffer.
use tipy.Common.{
  ℕ, ◌+◌, ◌-◌, ◌≤◌, ◌<◌, ◌≡◌, ◌∙◌, refl, sym, ap, false, arith, length, take, drop, min, leb, ◌||◌,
  List, length-append, length-take, length-drop, ◌++◌, ◌^◌, take_all,
}
use mathlib.Core.Path.{subst}
use tipy.Common.Int.{pos, is_zero}
use tipy.Buffer.Slices.{slice}
use tipy.Buffer.Queue
use tipy.Buffer.Ring
use tipy.Buffer.Ring.Refine.{IsValid, held, enqueue_refines, counts}
use tipy.Tcp.Seq.{seq_mod, seq_diff}
use tipy.Tcp.Types.{Segment, Tcpcb, accept_and_handle}
use tipy.Tcp.Input.Window.{in_order_holds, in_order_accepted}
use tipy.Tcp.Action.{◌>>=◌, gets, pure, modify, emit}
use tipy.Tcp.Input.{
  h_rx_seq_normal, seg_len, compute_rcv_wnd, enqueue_rcv, copy_rcv_data, append_rcv_data,
}

open_window :
    (n : ℕ) (payload : List ℕ)
    → 0 < n
    → 0 < length payload
    → (is_zero (pos n) || leb (length payload) 0) ≡ false
open_window n payload hn hp = ground arith

module _ {R : Type 0} where
  copied :
      (p : Segment) (c : Tcpcb R)
      → 0 < Ring.free_space c.rcv_buf
      → 0 < length p.payload
      → ((append_rcv_data p c).0, (append_rcv_data p c).1.rcv_buf)
        ≡ Ring.enqueue c.rcv_buf (slice c.tcp_data_start c.tcp_data_len p.payload)
  unfolding append_rcv_data copy_rcv_data compute_rcv_wnd enqueue_rcv ◌>>=◌ gets pure modify emit
  copied p c space nonempty =
      rw (open_window (Ring.free_space c.rcv_buf) p.payload space nonempty) refl

  appended-rcv_nxt :
      (p : Segment) (c : Tcpcb R)
      → 0 < Ring.free_space c.rcv_buf
      → 0 < length p.payload
      → (append_rcv_data p c).1.rcv_nxt ≡ c.rcv_nxt
  unfolding append_rcv_data copy_rcv_data compute_rcv_wnd enqueue_rcv ◌>>=◌ gets pure modify emit
  appended-rcv_nxt p c space nonempty =
      rw (open_window (Ring.free_space c.rcv_buf) p.payload space nonempty) refl

  -- With room in a valid receive buffer and a payload, the buffer takes the slice of the payload
  -- from `tcp_data_start` to `tcp_data_len` as a bounded queue does, and the count taken is the
  -- result.
  append_rcv_data_lem :
      (p : Segment) (c : Tcpcb R)
      → IsValid c.rcv_buf
      → 0 < Ring.free_space c.rcv_buf
      → 0 < length p.payload
      → let (l, c') = append_rcv_data p c in
        (l, held c'.rcv_buf)
        ≡ Queue.push
            (c.rcv_buf.size - 1)
            (held c.rcv_buf)
            (slice c.tcp_data_start c.tcp_data_len p.payload)
  append_rcv_data_lem p c v space nonempty =
      ap (λ (r : ℕ × Ring.RingBuffer). (r.0, held r.1)) (copied p c space nonempty)
      ∙ enqueue_refines v (slice c.tcp_data_start c.tcp_data_len p.payload)

  -- Of the `tcp_data_len` bytes by which RCV.NXT was advanced, as many are missing in the receive
  -- buffer as were received before (`tcp_data_start`), though the payload has them and there is
  -- room for all.
  pub overlap_loses_bytes :
      (p : Segment) (c : Tcpcb R)
      → IsValid c.rcv_buf
      → 0 < length p.payload
      → 0 < Ring.free_space c.rcv_buf
      → c.tcp_data_start ≤ c.tcp_data_len
      → c.tcp_data_start + c.tcp_data_len ≤ length p.payload
      → c.tcp_data_len ≤ Ring.free_space c.rcv_buf
      → length (held (append_rcv_data p c).1.rcv_buf) + c.tcp_data_start
        ≡ length (held c.rcv_buf) + c.tcp_data_len
  overlap_loses_bytes p c v nonempty space ordered inside room =
      let bytes = slice c.tcp_data_start c.tcp_data_len p.payload in
      let cut = min (length bytes) (c.rcv_buf.size - 1 - length (held c.rcv_buf)) in
      let (_, counted, _) = counts v in
      omega (
        arith,
        counted,
        ap (λ (r : ℕ × List ℕ). length r.1) (append_rcv_data_lem p c v space nonempty),
        length-append (held c.rcv_buf) (take cut bytes),
        length-take cut bytes,
        length-take (c.tcp_data_len - c.tcp_data_start) (drop c.tcp_data_start p.payload),
        length-drop c.tcp_data_start p.payload,
      )

  -- What a check of the sequence numbers leaves as it is.
  untouched :
      (p : Segment) (c : Tcpcb R)
      → p.seq < seq_mod
      → c.rcv_nxt < seq_mod
      → seg_len p < 2 ^ 31
      → seq_diff c.rcv_nxt p.seq < seg_len p
      → ((h_rx_seq_normal p c).0.1.payload ≡ p.payload)
        × ((h_rx_seq_normal p c).1.rcv_buf ≡ c.rcv_buf)
  unfolding h_rx_seq_normal
  untouched p c hs hn hl hk = rw (in_order_holds p c.rcv_nxt hs hn hl hk) (refl, refl)

  -- An append without an overlap, for `m` bytes for which there is room.
  delivered_front :
      (p : Segment) (c : Tcpcb R) (m : ℕ)
      → IsValid c.rcv_buf
      → 0 < Ring.free_space c.rcv_buf
      → 0 < length p.payload
      → c.tcp_data_start ≡ 0
      → c.tcp_data_len ≡ m
      → m ≤ Ring.free_space c.rcv_buf
      → m ≤ length p.payload
      → let (l, c2) = append_rcv_data p c in
        (l ≡ m) × (held c2.rcv_buf ≡ held c.rcv_buf ++ take m p.payload) × (c2.rcv_nxt ≡ c.rcv_nxt)
  delivered_front p c m v space nonempty start len room inside =
      let appended = append_rcv_data_lem p c v space nonempty in
      let bytes : slice c.tcp_data_start c.tcp_data_len p.payload ≡ take m p.payload =
        rw (start, len) (ap (λ k. take k p.payload) (omega arith)) in
      let cut : min (length (slice c.tcp_data_start c.tcp_data_len p.payload))
            (c.rcv_buf.size - 1 - length (held c.rcv_buf))
          ≡ m =
        omega (arith, counts v, ap (length {0}) bytes, length-take m p.payload) in
      (
        ap (λ (r : ℕ × List ℕ). r.0) appended ∙ cut,
        ap (λ (r : ℕ × List ℕ). r.1) appended
            ∙ rw (cut, bytes)
                (ap (λ ws. held c.rcv_buf ++ ws)
                  (take_all m (take m p.payload) (omega (arith, length-take m p.payload)))),
        appended-rcv_nxt p c space nonempty,
      )

  -- A segment with data, without SYN and FIN, that starts at RCV.NXT, while the window is open and
  -- reaches no farther than the free space: it is accepted, and the receive buffer gets as many of
  -- its first bytes as RCV.NXT moves over, which are all that are before the window's last number.
  pub in_order_delivered :
      (p : Segment) (c : Tcpcb R)
      → IsValid c.rcv_buf
      → p.seq ≡ c.rcv_nxt
      → c.rcv_nxt < seq_mod
      → c.rcv_adv < seq_mod
      → p.syn ≡ false
      → p.fin ≡ false
      → p.dlen ≡ length p.payload
      → 0 < length p.payload
      → length p.payload < 2 ^ 31
      → 0 < seq_diff c.rcv_adv c.rcv_nxt
      → seq_diff c.rcv_adv c.rcv_nxt ≤ Ring.free_space c.rcv_buf
      → let ((v, p'), c1) = h_rx_seq_normal p c in
        let (l, c2) = append_rcv_data p' c1 in
        (v ≡ accept_and_handle)
        × (l ≡ min (seq_diff c.rcv_adv c.rcv_nxt - 1) (length p.payload))
        × (held c2.rcv_buf ≡ held c.rcv_buf ++ take l p.payload)
        × (seq_diff c2.rcv_nxt c.rcv_nxt ≡ l)
  in_order_delivered p c v starts hn ha no_syn no_fin dlen some_data small opened fits =
      let len : seg_len p ≡ length p.payload = rw (no_syn, no_fin) (omega arith) in
      let at_front : seq_diff c.rcv_nxt p.seq ≡ 0 = unfold seq_diff in omega arith in
      let (verdict, _, start, moved, nxt, _) =
        in_order_accepted p c (omega arith) hn ha (omega (arith, len))
          (omega (arith, len, at_front)) opened in
      let (same_payload, same_buf) =
        untouched p c (omega arith) hn (omega (arith, len)) (omega (arith, len, at_front)) in
      let p' = (h_rx_seq_normal p c).0.1 in
      let c1 = (h_rx_seq_normal p c).1 in
      let m = min (seq_diff c.rcv_adv c.rcv_nxt - 1) (length p.payload) in
      let moved_all : c1.tcp_data_len ≡ m =
        moved ∙ rw (len, at_front) (whole (seq_diff c.rcv_adv c.rcv_nxt - 1) (length p.payload)) in
      let space : m ≤ Ring.free_space c1.rcv_buf =
        rw same_buf (less (seq_diff c.rcv_adv c.rcv_nxt) (length p.payload) _ fits) in
      let some : 0 < length p'.payload = rw same_payload some_data in
      let (all, front, still) =
        delivered_front p' c1 m (subst IsValid (sym same_buf) v)
          (rw same_buf (at_least (seq_diff c.rcv_adv c.rcv_nxt) _ opened fits)) some
          (start ∙ at_front) moved_all space
          (rw same_payload (short (seq_diff c.rcv_adv c.rcv_nxt - 1) (length p.payload))) in
      (
        verdict,
        all,
        front ∙ rw (same_buf, same_payload, all) refl,
        ap (λ k. seq_diff k c.rcv_nxt) still ∙ nxt ∙ moved_all ∙ sym all,
      )
    where
      less : (w l f : ℕ) → w ≤ f → min (w - 1) l ≤ f
      less w l f h = omega arith

      at_least : (w f : ℕ) → 0 < w → w ≤ f → 0 < f
      at_least w f h h' = omega arith

      whole : (a l : ℕ) → min a (l - 0) ≡ min a l
      whole a l = omega arith

      short : (a l : ℕ) → min a l ≤ l
      short a l = omega arith
