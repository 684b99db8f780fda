-- ===== src/Socket/Tcp/Send.antt =====
-- What `tcp_send` of tipy/protocols/tcp/tcp_usrreq.py puts into the send buffer.
use tipy.Common.{
  ℕ, ◌-◌, ◌≤◌, ◌<◌, ◌≡◌, refl, sym, ap, ◌∙◌, concat, append_assoc, take-append-drop, true, false,
  some, none, List, ◌++◌, length, take, take_all, if◌then◌else◌, ltb, lt→ltb, le→ltb, ◌==◌, min,
  arith,
}
use mathlib.Core.Path.{subst}
use tipy.Arp.{set_at}
use tipy.Buffer.Slices.Contents.{InRing}
use tipy.Buffer.Slices.Dequeue.{dequeue-Dequeued}
use tipy.Buffer.Slices.Enqueue.{enqueue-Enqueued}
use tipy.Buffer.Recoverable.{RRingBuffer, free, free_space, enqueue, dequeue}
use tipy.Buffer.Recoverable.Resend.{IsValid, unread}
use tipy.Socket.Table.{returned}
use tipy.Socket.Tcp.{TcpState, sent, waiting, tcp_send_round, tcp_send, tcp_send_woken}

set_at_same {ℓ} : {A : Type ℓ} (d : ℕ → A) (k : ℕ) (v : A) → set_at d k v k ≡ v
unfolding set_at
set_at_same d k v = ap (λ b. if b then v else d k) (same k)
  where
    same : (k : ℕ) → (k == k) ≡ true
    same k = ground arith

abbrev IsReadable : RRingBuffer → Type 0
IsReadable b = InRing b.size b.ring b.vr b.vw

-- How many bytes a write takes, and that they are the first ones.
enqueue_front :
    (b : RRingBuffer) (payload : List ℕ)
    → IsReadable b
    → ((enqueue b payload).0 ≡ min (length payload) (free_space b))
      × (unread (enqueue b payload).1 ≡ unread b ++ take (enqueue b payload).0 payload)
unfolding enqueue unread free_space
enqueue_front b payload v = let d = enqueue-Enqueued v payload in (d.taken, d.appended)

module _ {R : Type 0} where
  abbrev pub buffer_of : TcpState R → ℕ → RRingBuffer
  buffer_of s k = (s.blocks k).snd_buf

  -- A round gives the buffer the first bytes of the data, however many of them it has had before.
  tcp_send_round-buffer :
      (k : ℕ) (payload : List ℕ) (dlen : ℕ) (s : TcpState R)
      → buffer_of (tcp_send_round k payload dlen s).1 k ≡ (enqueue (buffer_of s k) payload).1
  unfolding tcp_send_round
  tcp_send_round-buffer k payload dlen s =
      ap (λ c. c.snd_buf)
        (set_at_same s.blocks k
          (record (s.blocks k) { snd_buf = (enqueue (buffer_of s k) payload).1 }))

  tcp_send_round-progress :
      (k : ℕ) (payload : List ℕ) (dlen : ℕ) (s : TcpState R)
      → (tcp_send_round k payload dlen s).0 ≡ (
          let l = (enqueue (buffer_of s k) payload).0 in
          if ltb 0 (dlen - l) then waiting (dlen - l) else sent (length payload))
  unfolding tcp_send_round
  tcp_send_round-progress k payload dlen s = refl

  module _ (i k : ℕ) (payload : List ℕ) (s : TcpState R) (ok : (s.socks i).error ≡ none)
      (known : s.table.entries ((s.socks i).sock_id) ≡ some k)
      (some_data : 0 < length payload) where
    tcp_send-round :
        tcp_send i payload s
        ≡ (let (p, s') = tcp_send_round k payload (length payload) s in (returned p, s'))
    unfolding tcp_send
    tcp_send-round = rw (ok, known, not_empty (length payload) some_data)
      where
        not_empty : (n : ℕ) → 0 < n → (n == 0) ≡ false
        not_empty n h = ground arith

  -- The first round, for data that do not fit.
  first_round :
      (i k : ℕ) (payload : List ℕ) (s : TcpState R)
      → (s.socks i).error ≡ none
      → s.table.entries ((s.socks i).sock_id) ≡ some k
      → IsValid (buffer_of s k)
      → free_space (buffer_of s k) < length payload
      → let f = free_space (buffer_of s k) in
        ((tcp_send i payload s).0 ≡ returned (waiting (length payload - f)))
        × (unread (buffer_of (tcp_send i payload s).1 k) ≡ unread (buffer_of s k) ++ take f payload)
  first_round i k payload s ok known v full =
      let b = buffer_of s k in
      let (t, a) = enqueue_front b payload v.reading in
      let taken : (enqueue b payload).0 ≡ free_space b = omega arith in
      let round = tcp_send-round i k payload s ok known (omega arith) in
      (
        ap (λ r. r.0) round
            ∙ ap returned (
                tcp_send_round-progress k payload (length payload) s
                ∙ ap
                    (λ l.
                      if ltb 0 (length payload - l)
                      then waiting (length payload - l)
                      else sent (length payload))
                    taken
                ∙ ap
                    (λ t.
                      if t then waiting (length payload - free_space b) else sent (length payload))
                    (lt→ltb 0 (length payload - free_space b) (omega arith))),
        ap (λ r. unread (buffer_of r.1 k)) round
            ∙ ap unread (tcp_send_round-buffer k payload (length payload) s)
            ∙ a
            ∙ ap (λ l. unread b ++ take l payload) taken,
      )

  -- A later round, with room for all data.
  later_round :
      (i k dlen : ℕ) (payload : List ℕ) (s : TcpState R)
      → (s.socks i).error ≡ none
      → IsReadable (buffer_of s k)
      → length payload ≤ free_space (buffer_of s k)
      → dlen ≤ length payload
      → ((tcp_send_woken i k payload dlen s).0 ≡ returned (sent (length payload)))
        × (unread (buffer_of (tcp_send_woken i k payload dlen s).1 k)
            ≡ unread (buffer_of s k) ++ payload)
  unfolding tcp_send_woken
  later_round i k dlen payload s ok v room less =
      let b = buffer_of s k in
      let (t, a) = enqueue_front b payload v in
      let taken : (enqueue b payload).0 ≡ length payload = omega arith in
      rw ok (
        ap returned (
            tcp_send_round-progress k payload dlen s
            ∙ ap (λ l. if ltb 0 (dlen - l) then waiting (dlen - l) else sent (length payload)) taken
            ∙ ap (λ t. if t then waiting (dlen - length payload) else sent (length payload))
                (le→ltb 0 (dlen - length payload) (omega arith))),
        ap unread (tcp_send_round-buffer k payload dlen s)
            ∙ a
            ∙ ap (λ ws. unread b ++ ws)
                (ap (λ l. take l payload) taken ∙ take_all (length payload) payload (omega arith)),
      )

  -- While a send waits, the state machine takes `n` bytes out of the send buffer, and `m` are
  -- acknowledged.
  abbrev pub between : ℕ → ℕ → ℕ → TcpState R → TcpState R
  between k n m s = record s {
    blocks =
        set_at s.blocks k (record (s.blocks k) { snd_buf = free (dequeue (buffer_of s k) n).1 m });
  }

  -- What is taken out and what stays are what was there, in order.
  between-unread :
      (k n m : ℕ) (s : TcpState R)
      → IsReadable (buffer_of s k)
      → IsReadable (buffer_of (between k n m s) k)
        × (concat (dequeue (buffer_of s k) n).0 ++ unread (buffer_of (between k n m s) k)
            ≡ unread (buffer_of s k))
  unfolding dequeue free unread
  between-unread k n m s v =
      let b = buffer_of s k in
      let d = dequeue-Dequeued v n in
      let e =
        ap (λ c. c.snd_buf)
          (set_at_same s.blocks k (record (s.blocks k) { snd_buf = free (dequeue b n).1 m })) in
      (
        subst IsReadable (sym e) d.valid,
        ap (λ b'. concat (dequeue b n).0 ++ unread b') e
            ∙ rw (d.returned, d.left) (take-append-drop n (unread b)),
      )

  -- The buffer after the first round.
  first_round-IsReadable :
      (i k : ℕ) (payload : List ℕ) (s : TcpState R)
      → (s.socks i).error ≡ none
      → s.table.entries ((s.socks i).sock_id) ≡ some k
      → IsReadable (buffer_of s k)
      → 0 < length payload
      → IsReadable (buffer_of (tcp_send i payload s).1 k)
        × (((tcp_send i payload s).1.socks i).error ≡ none)
  unfolding enqueue tcp_send_round
  first_round-IsReadable i k payload s ok known v some_data =
      let round = tcp_send-round i k payload s ok known some_data in
      (
        subst IsReadable
            (sym (
              ap (λ r. buffer_of r.1 k) round ∙ tcp_send_round-buffer k payload (length payload) s))
            (enqueue-Enqueued v payload).valid,
        ap (λ r. (r.1.socks i).error) round ∙ ok,
      )

  -- Data for which the send buffer has too little room: `send` appends as many of the first bytes
  -- as fit, and waits. The state machine then takes bytes out of the buffer, and some are
  -- acknowledged. If there is room for all data when `send` is woken, it appends them again from
  -- the first byte on and returns their length. So the stream, what was taken out followed by what
  -- is in the buffer, has the first bytes of the data twice.
  pub tcp_send-restarts :
      (i k n m : ℕ) (payload : List ℕ) (s : TcpState R)
      → (s.socks i).error ≡ none
      → s.table.entries ((s.socks i).sock_id) ≡ some k
      → IsValid (buffer_of s k)
      → free_space (buffer_of s k) < length payload
      → length payload ≤ free_space (buffer_of (between k n m (tcp_send i payload s).1) k)
      → let room = free_space (buffer_of s k) in
        let left = length payload - room in
        let (r, t) = tcp_send i payload s in
        let (r', t') = tcp_send_woken i k payload left (between k n m t) in
        (r ≡ returned (waiting left))
        × (r' ≡ returned (sent (length payload)))
        × (concat (dequeue (buffer_of t k) n).0 ++ unread (buffer_of t' k)
            ≡ unread (buffer_of s k) ++ (take room payload ++ payload))
  tcp_send-restarts i k n m payload s ok known v full enough =
      let room = free_space (buffer_of s k) in
      let t = (tcp_send i payload s).1 in
      let taken_out = concat (dequeue (buffer_of t k) n).0 in
      let (p, q) = first_round i k payload s ok known v full in
      let (readable, no_error) =
        first_round-IsReadable i k payload s ok known v.reading (omega arith) in
      let (readable', kept) = between-unread k n m t readable in
      let (p', q') =
        later_round i k (length payload - room) payload (between k n m t) no_error readable' enough
          (omega arith) in
      (
        p,
        p',
        ap (λ ws. taken_out ++ ws) q'
            ∙ sym (append_assoc taken_out (unread (buffer_of (between k n m t) k)) payload)
            ∙ ap (λ ws. ws ++ payload) (kept ∙ q)
            ∙ append_assoc (unread (buffer_of s k)) (take room payload) payload,
      )
