-- ===== src/Arp/Resolution.antt =====
-- An address that is asked for and answers (tipy/protocols/arp/rx.py).
use tipy.Common.{
  ℕ, ◌≡◌, refl, sym, ap, ◌∙◌, true, false, none, some, List, [], ◌∷◌, ◌++◌, append-nil,
  append_assoc, if◌then◌else◌, ◌==◌, arith,
}
use mathlib.Core.Path.{subst}
use tipy.Arp.{
  wait_remove, flush_entry, Frame, arp_request, ArpState, Host, set_at, tx_ether, schedule_timer,
  update_arp_cache, arp_wait_add, tx_arp_request, enqueue, frames_to, dequeue,
  h_unresolved_mac_datagrams, tx_ip_to, rx_arp_reply, ArpEvent, send, reply, step, run,
}
use tipy.Arp.Same.{set_at-here}

module _ {D : Type 0} where
  -- `ip` has been asked for, and the datagrams for it wait.
  record Waiting (ip : ℕ) (sent : List (Frame D)) (queue : List D) (s : ArpState D) : Type 0 where
    pub unknown : s.arp_cache ip ≡ none
    pub awaited : s.arp_wait_list ip ≡ true
    pub queued : s.pending_datagrams ip ≡ some queue
    pub frames : s.sent ≡ sent ++ (arp_request ip ∷ [])

  unfoldable pub sends : ℕ → List D → List (ArpEvent D)
  sends ip [] = []
  sends ip (d ∷ ds) = send ip d ∷ sends ip ds

  -- The first datagram for an address asks for it.
  asked_state : ℕ → D → ArpState D → ArpState D
  asked_state ip d s = record s {
    arp_wait_list = set_at s.arp_wait_list ip true;
    tasks = s.tasks ++ (wait_remove ip ∷ []);
    sent = s.sent ++ (arp_request ip ∷ []);
    pending_datagrams = set_at s.pending_datagrams ip (some (d ∷ []));
  }

  requested_state :
      (ip : ℕ) (s : ArpState D)
      → s.arp_wait_list ip ≡ false
      → tx_arp_request false ip s ≡ record s {
        arp_wait_list = set_at s.arp_wait_list ip true;
        tasks = s.tasks ++ (wait_remove ip ∷ []);
        sent = s.sent ++ (arp_request ip ∷ []);
      }
  unfolding tx_arp_request arp_wait_add schedule_timer tx_ether
  requested_state ip s w =
      ap
        (λ b. tx_ether (arp_request ip) (
          if b
          then s
          else schedule_timer (wait_remove ip)
              (record s { arp_wait_list = set_at s.arp_wait_list ip true })))
        w

  updated_state :
      (ip sha : ℕ) (s : ArpState D)
      → s.arp_cache ip ≡ none
      → update_arp_cache ip sha s ≡ record s { arp_cache = set_at s.arp_cache ip (some sha) }
  unfolding update_arp_cache
  updated_state ip sha s u =
      ap
        (λ o. elim o as (λ _. ArpState D) [
          | none ↦ record s { arp_cache = set_at s.arp_cache ip (some sha) }
          | some _ ↦ s
        ])
        u

  enqueue-none :
      (ip : ℕ) (d : D) (s : ArpState D)
      → s.pending_datagrams ip ≡ none
      → enqueue ip d s
        ≡ record s { pending_datagrams = set_at s.pending_datagrams ip (some (d ∷ [])) }
  unfolding enqueue
  enqueue-none ip d s q = rw (enqueue, q)

  dequeue-some :
      (ip sha : ℕ) (queue : List D) (s : ArpState D)
      → s.pending_datagrams ip ≡ some queue
      → dequeue ip sha s ≡ record s {
        sent = s.sent ++ frames_to sha queue;
        pending_datagrams = set_at s.pending_datagrams ip none;
      }
  unfolding dequeue
  dequeue-some ip sha queue s q = rw (dequeue, q)

  first_state :
      (ip : ℕ) (d : D) (s : ArpState D)
      → s.arp_cache ip ≡ none
      → s.arp_wait_list ip ≡ false
      → s.pending_datagrams ip ≡ none
      → tx_ip_to ip d s ≡ asked_state ip d s
  unfolding tx_ip_to h_unresolved_mac_datagrams asked_state
  first_state ip d s u w q =
      rw (tx_ip_to, u, h_unresolved_mac_datagrams, q)
        (ap (enqueue ip d) (requested_state ip s w) ∙ enqueue-none ip d _ q)

  first-Waiting :
      (ip : ℕ) (d : D) (s : ArpState D)
      → s.arp_cache ip ≡ none
      → s.arp_wait_list ip ≡ false
      → s.pending_datagrams ip ≡ none
      → Waiting ip s.sent (d ∷ []) (tx_ip_to ip d s)
  unfolding asked_state
  first-Waiting ip d s u w q =
      subst (Waiting ip s.sent (d ∷ [])) (sym (first_state ip d s u w q)) (record {
        unknown = u;
        awaited = set_at-here s.arp_wait_list ip true;
        queued = set_at-here s.pending_datagrams ip _;
        frames = refl;
      })

  next_state :
      (ip : ℕ) (sent : List (Frame D)) (queue : List D) (d : D) (s : ArpState D)
      → Waiting ip sent queue s
      → tx_ip_to ip d s
        ≡ record s { pending_datagrams = set_at s.pending_datagrams ip (some (queue ++ (d ∷ []))) }
  unfolding tx_ip_to h_unresolved_mac_datagrams enqueue
  next_state ip sent queue d s w =
      rw (tx_ip_to, w.unknown, h_unresolved_mac_datagrams, w.queued, enqueue, w.queued)

  next-Waiting :
      (ip : ℕ) (sent : List (Frame D)) (queue : List D) (d : D) (s : ArpState D)
      → Waiting ip sent queue s
      → Waiting ip sent (queue ++ (d ∷ [])) (tx_ip_to ip d s)
  next-Waiting ip sent queue d s w =
      subst (Waiting ip sent (queue ++ (d ∷ []))) (sym (next_state ip sent queue d s w)) (record {
        unknown = w.unknown;
        awaited = w.awaited;
        queued = set_at-here s.pending_datagrams ip _;
        frames = w.frames;
      })

  sends-Waiting :
      (host : Host) (ip : ℕ) (sent : List (Frame D)) (queue ds : List D) (s : ArpState D)
      → Waiting ip sent queue s
      → Waiting ip sent (queue ++ ds) (run host (sends ip ds) s)
  unfolding run step sends
  sends-Waiting host ip sent queue [] s w =
      subst (λ q. Waiting ip sent q s) (sym (append-nil queue)) w
  sends-Waiting host ip sent queue (d ∷ ds) s w =
      subst (λ q. Waiting ip sent q (run host (sends ip ds) (tx_ip_to ip d s)))
        (append_assoc queue (d ∷ []) ds)
        (sends-Waiting host ip sent (queue ++ (d ∷ [])) ds (tx_ip_to ip d s)
          (next-Waiting ip sent queue d s w))

  -- What is left behind an answer: the frames, the entry of the cache, and no queue.
  pub record Resolved (ip sha : ℕ) (frames : List (Frame D)) (s : ArpState D) : Type 0 where
    pub frames_sent : s.sent ≡ frames
    pub cached : s.arp_cache ip ≡ some sha
    pub unqueued : s.pending_datagrams ip ≡ none

  reply_state :
      (host : Host) (ip sha : ℕ) (sent : List (Frame D)) (queue : List D) (s : ArpState D)
      → Waiting ip sent queue s
      → rx_arp_reply host host.unicast_mac ip sha s ≡ record s {
        arp_cache = set_at s.arp_cache ip (some sha);
        tasks = s.tasks ++ (flush_entry ip ∷ []);
        sent = s.sent ++ frames_to sha queue;
        pending_datagrams = set_at s.pending_datagrams ip none;
      }
  unfolding rx_arp_reply schedule_timer
  reply_state host ip sha sent queue s w =
      rw (rx_arp_reply, self host.unicast_mac, w.awaited)
        (ap (λ t. dequeue ip sha (schedule_timer (flush_entry ip) t))
            (updated_state ip sha s w.unknown)
          ∙ dequeue-some ip sha queue _ w.queued)
    where
      self : (k : ℕ) → (k == k) ≡ true
      self k = ground arith

  reply-Resolved :
      (host : Host) (ip sha : ℕ) (sent : List (Frame D)) (queue : List D) (s : ArpState D)
      → Waiting ip sent queue s
      → Resolved ip sha
          (sent ++ (arp_request ip ∷ frames_to sha queue))
          (rx_arp_reply host host.unicast_mac ip sha s)
  reply-Resolved host ip sha sent queue s w =
      subst (Resolved ip sha (sent ++ (arp_request ip ∷ frames_to sha queue)))
        (sym (reply_state host ip sha sent queue s w))
        (record {
          frames_sent =
              ap (λ fs. fs ++ frames_to sha queue) w.frames
              ∙ append_assoc sent (arp_request ip ∷ []) (frames_to sha queue);
          cached = set_at-here s.arp_cache ip (some sha);
          unqueued = set_at-here s.pending_datagrams ip none;
        })

  -- Datagrams for an address that is neither known nor asked for, and then its reply: one request
  -- goes out, then every datagram in order to the MAC address of the reply, which stays in the
  -- cache; no datagram is left.
  pub reply-sends :
      (host : Host) (ip sha : ℕ) (d : D) (ds : List D) (s : ArpState D)
      → s.arp_cache ip ≡ none
      → s.arp_wait_list ip ≡ false
      → s.pending_datagrams ip ≡ none
      → Resolved ip sha
          (s.sent ++ (arp_request ip ∷ frames_to sha (d ∷ ds)))
          (step host (reply host.unicast_mac ip sha) (run host (sends ip (d ∷ ds)) s))
  unfolding run step sends
  reply-sends host ip sha d ds s u w q =
      reply-Resolved host ip sha s.sent (d ∷ ds) (run host (sends ip ds) (tx_ip_to ip d s))
        (sends-Waiting host ip s.sent (d ∷ []) ds (tx_ip_to ip d s) (first-Waiting ip d s u w q))
