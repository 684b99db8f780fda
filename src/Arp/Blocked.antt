-- ===== src/Arp/Blocked.antt =====
-- An address whose request to resolve it (tipy/protocols/arp/tx.py) has timed out.
use tipy.Common.{
  ℕ, ◌+◌, ◌≡◌, refl, sym, ap, ◌∙◌, inl, inr, Bool, true, false, Option, none, some, Bool-cases,
  List, [], ◌∷◌, ◌++◌, append-nil, append_assoc, if◌then◌else◌, ◌==◌,
}
use mathlib.Core.Path.{subst}
use tipy.Arp.{
  Task, wait_remove, probe_done, flush_entry, arp_request, arp_reply, ip_frame, ArpState, Host,
  set_at, tx_ether, schedule_timer, update_arp_cache, arp_wait_add, tx_arp_request, tx_arp_reply,
  enqueue, dequeue, h_unresolved_mac_datagrams, tx_ip_to, rx_arp_reply, rx_arp_request, execute,
  ArpEvent, send, reply, request, expire, step, run,
}
use tipy.Arp.Same.{
  set_at-here, set_at-same, known, asks, Same, Same-refl, Same-trans, tx_ether-Same, update-Same,
  wait_add-Same, enqueue-Same, dequeue-Same,
}

module _ {D : Type 0} where
  -- Datagrams for `ip` are queued, no reply is awaited, and no MAC address is known.
  pub record Blocked (ip : ℕ) (queue : List D) (s : ArpState D) : Type 0 where
    pub unknown : s.arp_cache ip ≡ none
    pub unawaited : s.arp_wait_list ip ≡ false
    pub queued : s.pending_datagrams ip ≡ some queue

  unfoldable pub sent_to : ℕ → ArpEvent D → List D
  sent_to ip (send tpa d) = if tpa == ip then (d ∷ []) else []
  sent_to ip (reply dst spa sha) = []
  sent_to ip (request src spa tpa) = []
  sent_to ip (expire t) = []

  unfoldable pub all_sent_to : ℕ → List (ArpEvent D) → List D
  unfolding sent_to
  all_sent_to ip [] = []
  all_sent_to ip (e ∷ es) = sent_to ip e ++ all_sent_to ip es

  -- No event is an ARP request that `ip` makes.
  unfoldable pub NoneFrom : ℕ → List (ArpEvent D) → Type 0
  NoneFrom ip [] = Unit
  NoneFrom ip (request src spa tpa ∷ es) = ((spa == ip) ≡ false) × NoneFrom ip es
  NoneFrom ip (e ∷ es) = NoneFrom ip es

  -- One event: the queue grows by what is sent to `ip`, and no request for `ip` goes out.
  Kept : ℕ → List D → ArpState D → ArpState D → Type 0
  Kept ip queue s s' = Blocked ip queue s' × (asks ip s'.sent ≡ asks ip s.sent)

  Same-Kept :
      (ip : ℕ) (queue : List D) (s s' : ArpState D)
      → Blocked ip queue s
      → Same ip s s'
      → Kept ip queue s s'
  unfolding Kept
  Same-Kept ip queue s s' b e = (
    record {
      unknown = e.cached ∙ b.unknown;
      unawaited = e.waits ∙ b.unawaited;
      queued = e.queued ∙ b.queued;
    },
    e.asked,
  )

  -- A datagram to another address.
  tx_ip_to-Same :
      (ip tpa : ℕ) (d : D) (s : ArpState D) → (tpa == ip) ≡ false → Same ip s (tx_ip_to tpa d s)
  unfolding tx_ip_to h_unresolved_mac_datagrams tx_arp_request asks
  tx_ip_to-Same ip tpa d s e = go (s.arp_cache tpa)
    where
      requested : Same ip s (tx_arp_request false tpa s)
      requested =
          Same-trans ip s (arp_wait_add tpa s) (tx_ether (arp_request tpa) (arp_wait_add tpa s))
            (wait_add-Same ip tpa s e)
            (tx_ether-Same ip (arp_request tpa) (arp_wait_add tpa s)
              (ap (λ b. (if b then 1 else 0) + 0) e))

      unresolved :
          (o : Option (List D))
          → Same ip s (elim o as (λ _. ArpState D) [
            | none ↦ enqueue tpa d (tx_arp_request false tpa s)
            | some queue ↦ enqueue tpa d s
          ])
      unresolved none =
          Same-trans ip s (tx_arp_request false tpa s) (enqueue tpa d (tx_arp_request false tpa s))
            requested (enqueue-Same ip tpa d (tx_arp_request false tpa s) e)
      unresolved (some queue) = enqueue-Same ip tpa d s e

      go :
          (o : Option ℕ)
          → Same ip s (elim o as (λ _. ArpState D) [
            | some mac ↦ tx_ether (ip_frame mac d) s
            | none ↦ h_unresolved_mac_datagrams tpa d s
          ])
      go (some mac) = tx_ether-Same ip (ip_frame mac d) s refl
      go none = unresolved (s.pending_datagrams tpa)

  -- A datagram to the address.
  tx_ip_to-queue :
      (ip : ℕ) (queue : List D) (d : D) (s : ArpState D)
      → Blocked ip queue s
      → tx_ip_to ip d s
        ≡ record s { pending_datagrams = set_at s.pending_datagrams ip (some (queue ++ (d ∷ []))) }
  unfolding tx_ip_to h_unresolved_mac_datagrams enqueue
  tx_ip_to-queue ip queue d s b =
      rw (tx_ip_to, b.unknown, h_unresolved_mac_datagrams, b.queued, enqueue, b.queued)

  tx_ip_to-Kept :
      (ip : ℕ) (queue : List D) (d : D) (s : ArpState D)
      → Blocked ip queue s
      → Kept ip (queue ++ (d ∷ [])) s (tx_ip_to ip d s)
  unfolding Kept
  tx_ip_to-Kept ip queue d s b =
      subst (Kept ip (queue ++ (d ∷ [])) s) (sym (tx_ip_to-queue ip queue d s b)) (
        record {
          unknown = b.unknown;
          unawaited = b.unawaited;
          queued = set_at-here s.pending_datagrams ip _;
        },
        refl,
      )

  send-Kept :
      (ip tpa : ℕ) (queue : List D) (d : D) (s : ArpState D)
      → Blocked ip queue s
      → Kept ip (queue ++ sent_to ip (send tpa d)) s (tx_ip_to tpa d s)
  unfolding sent_to
  send-Kept ip tpa queue d s b = elim (Bool-cases (tpa == ip)) [
    | inl e ↦
        subst (λ k. Kept ip (queue ++ (if tpa == ip then (d ∷ []) else [])) s (tx_ip_to k d s))
          (sym (known tpa ip e))
          (subst (λ t. Kept ip (queue ++ (if t then (d ∷ []) else [])) s (tx_ip_to ip d s)) (sym e)
            (tx_ip_to-Kept ip queue d s b))
    | inr e ↦
        subst (λ t. Kept ip (queue ++ (if t then (d ∷ []) else [])) s (tx_ip_to tpa d s)) (sym e)
          (subst (λ q. Kept ip q s (tx_ip_to tpa d s)) (sym (append-nil queue))
            (Same-Kept ip queue s (tx_ip_to tpa d s) b (tx_ip_to-Same ip tpa d s e)))
  ]

  -- A reply, and what a reply that is awaited does.
  answered-Same :
      (ip spa sha : ℕ) (s : ArpState D)
      → (spa == ip) ≡ false
      → Same ip s (dequeue spa sha (schedule_timer (flush_entry spa) (update_arp_cache spa sha s)))
  unfolding schedule_timer
  answered-Same ip spa sha s e =
      let s1 = update_arp_cache spa sha s in
      let s2 = schedule_timer (flush_entry spa) s1 in
      Same-trans ip s s1 (dequeue spa sha s2) (update-Same ip spa sha s e) (
        Same-trans ip s1 s2 (dequeue spa sha s2)
          (record { cached = refl; waits = refl; queued = refl; asked = refl })
          (dequeue-Same ip spa sha s2 e))

  rx_arp_reply-Same :
      (host : Host) (ip dst spa sha : ℕ) (s : ArpState D)
      → s.arp_wait_list ip ≡ false
      → Same ip s (rx_arp_reply host dst spa sha s)
  unfolding rx_arp_reply
  rx_arp_reply-Same host ip dst spa sha s w = to_me (dst == host.unicast_mac)
    where
      conflict : ArpState D
      conflict = record s { conflict_ips = s.conflict_ips ++ (spa ∷ []) }

      answered : ArpState D
      answered = dequeue spa sha (schedule_timer (flush_entry spa) (update_arp_cache spa sha s))

      probed : (b : Bool) → Same ip s (if b then conflict else s)
      probed true = record { cached = refl; waits = refl; queued = refl; asked = refl }
      probed false = Same-refl ip s

      awaited :
          (b : Bool)
          → s.arp_wait_list spa ≡ b
          → Same ip s (if b then answered else (if s.arp_wait_prob_list spa then conflict else s))
      awaited true e = elim (Bool-cases (spa == ip)) [
        | inl f ↦
            let clash : true ≡ false = sym e ∙ ap s.arp_wait_list (known spa ip f) ∙ w in
            absurd (cc clash)
        | inr f ↦ answered-Same ip spa sha s f
      ]
      awaited false e = probed (s.arp_wait_prob_list spa)

      to_me :
          (b : Bool)
          → Same ip s (
              if b
              then (if s.arp_wait_list spa
                  then answered
                  else (if s.arp_wait_prob_list spa then conflict else s))
              else s)
      to_me true = awaited (s.arp_wait_list spa) refl
      to_me false = Same-refl ip s

  rx_arp_request-Same :
      (host : Host) (ip src spa tpa : ℕ) (s : ArpState D)
      → (spa == ip) ≡ false
      → Same ip s (rx_arp_request host src spa tpa s)
  unfolding rx_arp_request tx_arp_reply asks
  rx_arp_request-Same host ip src spa tpa s e = go (tpa == host.unicast_ip)
    where
      go :
          (b : Bool)
          → Same ip s (if b then update_arp_cache spa src (tx_arp_reply src spa s) else s)
      go true =
          Same-trans ip s (tx_arp_reply src spa s)
            (update_arp_cache spa src (tx_arp_reply src spa s))
            (tx_ether-Same ip (arp_reply src spa) s refl)
            (update-Same ip spa src (tx_arp_reply src spa s) e)
      go false = Same-refl ip s

  -- A task of the timer: the request for `ip` has timed out already.
  execute-Same :
      (ip : ℕ) (queue : List D) (t : Task) (s : ArpState D)
      → Blocked ip queue s
      → Same ip s (execute t s)
  unfolding execute
  execute-Same ip queue (wait_remove k) s b = go (s.arp_wait_list k)
    where
      go :
          (w : Bool)
          → Same ip s (
              if w
              then record s { arp_wait_list = set_at s.arp_wait_list k false }
              else record s { raised = true })
      go true = record {
        cached = refl;
        waits = set_at-same s.arp_wait_list k ip false b.unawaited;
        queued = refl;
        asked = refl;
      }
      go false = record { cached = refl; waits = refl; queued = refl; asked = refl }
  execute-Same ip queue (probe_done k) s b = go (s.arp_wait_prob_list k)
    where
      go :
          (w : Bool)
          → Same ip s (
              if w
              then record s { arp_wait_prob_list = set_at s.arp_wait_prob_list k false }
              else record s { raised = true })
      go true = record { cached = refl; waits = refl; queued = refl; asked = refl }
      go false = record { cached = refl; waits = refl; queued = refl; asked = refl }
  execute-Same ip queue (flush_entry k) s b = record {
    cached = set_at-same s.arp_cache k ip none b.unknown;
    waits = refl;
    queued = refl;
    asked = refl;
  }

  nothing_sent :
      (ip : ℕ) (queue : List D) (s s' : ArpState D)
      → Blocked ip queue s
      → Same ip s s'
      → Kept ip (queue ++ []) s s'
  nothing_sent ip queue s s' b e =
      subst (λ q. Kept ip q s s') (sym (append-nil queue)) (Same-Kept ip queue s s' b e)

  step-Kept :
      (host : Host) (ip : ℕ) (queue : List D) (e : ArpEvent D) (s : ArpState D)
      → NoneFrom ip (e ∷ [])
      → Blocked ip queue s
      → Kept ip (queue ++ sent_to ip e) s (step host e s)
  unfolding NoneFrom sent_to step
  step-Kept host ip queue (send tpa d) s h b = send-Kept ip tpa queue d s b
  step-Kept host ip queue (reply dst spa sha) s h b =
      nothing_sent ip queue s _ b (rx_arp_reply-Same host ip dst spa sha s b.unawaited)
  step-Kept host ip queue (request src spa tpa) s (h, u) b =
      nothing_sent ip queue s _ b (rx_arp_request-Same host ip src spa tpa s h)
  step-Kept host ip queue (expire t) s h b =
      nothing_sent ip queue s _ b (execute-Same ip queue t s b)

  NoneFrom-parts :
      (ip : ℕ) (e : ArpEvent D) (es : List (ArpEvent D))
      → NoneFrom ip (e ∷ es)
      → NoneFrom ip (e ∷ []) × NoneFrom ip es
  unfolding NoneFrom
  NoneFrom-parts ip (send tpa d) es h = (tt, h)
  NoneFrom-parts ip (reply dst spa sha) es h = (tt, h)
  NoneFrom-parts ip (request src spa tpa) es (h, hs) = ((h, tt), hs)
  NoneFrom-parts ip (expire t) es h = (tt, h)

  -- Once datagrams for an address are queued and the request to resolve it has timed out, whatever
  -- happens, but for an ARP request that the address itself makes: every datagram for it only joins
  -- the queue, none leaves it, no reply is taken, and it is never asked for again.
  pub run-Blocked :
      (host : Host) (ip : ℕ) (queue : List D) (es : List (ArpEvent D)) (s : ArpState D)
      → NoneFrom ip es
      → Blocked ip queue s
      → Blocked ip (queue ++ all_sent_to ip es) (run host es s)
        × (asks ip (run host es s).sent ≡ asks ip s.sent)
  unfolding run all_sent_to Kept NoneFrom
  run-Blocked host ip queue [] s h b =
      (subst (λ q. Blocked ip q s) (sym (append-nil queue)) b, refl)
  run-Blocked host ip queue (e ∷ es) s h b =
      let (h0, hs) = NoneFrom-parts ip e es h in
      let (b', a') = step-Kept host ip queue e s h0 b in
      let (b'', a'') = run-Blocked host ip (queue ++ sent_to ip e) es (step host e s) hs b' in
      (
        subst (λ q. Blocked ip q (run host es (step host e s)))
            (append_assoc queue (sent_to ip e) (all_sent_to ip es)) b'',
        a'' ∙ a',
      )
