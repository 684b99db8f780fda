-- ===== src/Arp.antt =====
-- Address resolution: tipy/components/arp_cache.py, the pending datagrams of
-- tipy/components/ip_cache.py, tipy/protocols/arp/rx.py and tx.py, and the end of `tx_ip` in
-- tipy/protocols/ip/tx.py. A dictionary or set of addresses is a function. The tasks of the timer
-- are in the order in which they were scheduled; frames are in the order in which they were sent.
pub mod Resolution
pub mod Same
pub mod Blocked
mod Tests
use tipy.Common.{
  ℕ, zero, suc, Bool, true, false, ◌&&◌, Option, none, some, List, [], ◌∷◌, ◌++◌, if◌then◌else◌,
  ◌==◌,
}

-- `_arp_wait_remove`, `_probe_done` and `flush_entry` of an address
pub data Task : Type 0 where
  wait_remove probe_done flush_entry : ℕ → Task

-- What goes to `tx_ether`: a request or a reply of ARP, with the destination's MAC address and the
-- address asked for or answered, and a datagram to a MAC address.
pub data Frame (D : Type 0) : Type 0 where
  arp_request : ℕ → Frame D
  arp_reply : ℕ → ℕ → Frame D
  ip_frame : ℕ → D → Frame D

-- `conflict_ips` is the core's. A flag says whether a call has ended with an exception.
pub record ArpState (D : Type 0) : Type 0 where
  pub arp_cache : ℕ → Option ℕ
  pub arp_wait_list : ℕ → Bool
  pub arp_wait_prob_list : ℕ → Bool
  pub pending_datagrams : ℕ → Option (List D)
  pub tasks : List Task
  pub conflict_ips : List ℕ
  pub sent : List (Frame D)
  pub raised : Bool

-- The host's addresses.
pub record Host : Type 0 where
  pub unicast_mac : ℕ
  pub unicast_ip : ℕ

-- d[k] = v
unfoldable pub set_at {ℓ} : {A : Type ℓ} → (ℕ → A) → ℕ → A → ℕ → A
set_at d k v k' = if k == k' then v else d k'

module _ {D : Type 0} where
  unfoldable pub tx_ether : Frame D → ArpState D → ArpState D
  tx_ether f s = record s { sent = s.sent ++ (f ∷ []) }

  unfoldable pub schedule_timer : Task → ArpState D → ArpState D
  schedule_timer t s = record s { tasks = s.tasks ++ (t ∷ []) }

  -- `ARPCache.update_arp_cache`: an entry that is there stays.
  unfoldable pub update_arp_cache : ℕ → ℕ → ArpState D → ArpState D
  unfolding set_at
  update_arp_cache ip mac s = elim (s.arp_cache ip) [
    | none ↦ record s { arp_cache = set_at s.arp_cache ip (some mac) }
    | some _ ↦ s
  ]

  -- `ARPCache.arp_wait_add`
  unfoldable pub arp_wait_add : ℕ → ArpState D → ArpState D
  unfolding set_at schedule_timer
  arp_wait_add ip s =
      if s.arp_wait_list ip
      then s
      else schedule_timer (wait_remove ip)
          (record s { arp_wait_list = set_at s.arp_wait_list ip true })

  -- `ARPCache.arp_probe_add`
  unfoldable pub arp_probe_add : ℕ → ArpState D → ArpState D
  unfolding set_at schedule_timer
  arp_probe_add ip s =
      if s.arp_wait_prob_list ip
      then s
      else schedule_timer (probe_done ip)
          (record s { arp_wait_prob_list = set_at s.arp_wait_prob_list ip true })

  -- `tx_arp` with op = ARP_OP_REQUEST, for a probe or not, and with op = ARP_OP_REPLY
  unfoldable pub tx_arp_request : Bool → ℕ → ArpState D → ArpState D
  unfolding arp_wait_add arp_probe_add tx_ether
  tx_arp_request prob tpa s =
      tx_ether (arp_request tpa) (if prob then arp_probe_add tpa s else arp_wait_add tpa s)

  unfoldable pub tx_arp_reply : ℕ → ℕ → ArpState D → ArpState D
  unfolding tx_ether
  tx_arp_reply tha tpa s = tx_ether (arp_reply tha tpa) s

  -- `IPCache.enqueue`
  unfoldable pub enqueue : ℕ → D → ArpState D → ArpState D
  unfolding set_at
  enqueue ip datagram s = elim (s.pending_datagrams ip) [
    | none ↦ record s { pending_datagrams = set_at s.pending_datagrams ip (some (datagram ∷ [])) }
    | some queue ↦ record s {
      pending_datagrams = set_at s.pending_datagrams ip (some (queue ++ (datagram ∷ [])));
    }
  ]

  unfoldable pub frames_to : ℕ → List D → List (Frame D)
  frames_to mac [] = []
  frames_to mac (d ∷ ds) = ip_frame mac d ∷ frames_to mac ds

  -- `IPCache.dequeue`: without a queue it raises KeyError.
  unfoldable pub dequeue : ℕ → ℕ → ArpState D → ArpState D
  unfolding set_at frames_to
  dequeue ip mac s = elim (s.pending_datagrams ip) [
    | none ↦ record s { raised = true }
    | some queue ↦ record s {
      sent = s.sent ++ frames_to mac queue;
      pending_datagrams = set_at s.pending_datagrams ip none;
    }
  ]

  -- `_h_unresolved_mac_datagrams`
  unfoldable pub h_unresolved_mac_datagrams : ℕ → D → ArpState D → ArpState D
  unfolding tx_arp_request enqueue
  h_unresolved_mac_datagrams dst datagram s = elim (s.pending_datagrams dst) [
    | none ↦ enqueue dst datagram (tx_arp_request false dst s)
    | some queue ↦ enqueue dst datagram s
  ]

  -- `tx_ip` from `find_entry` on, for a datagram that fits the MTU and is not a broadcast. `tpa` is
  -- its destination, or the router if that is outside the network.
  unfoldable pub tx_ip_to : ℕ → D → ArpState D → ArpState D
  unfolding h_unresolved_mac_datagrams tx_ether
  tx_ip_to tpa datagram s = elim (s.arp_cache tpa) [
    | some mac ↦ tx_ether (ip_frame mac datagram) s
    | none ↦ h_unresolved_mac_datagrams tpa datagram s
  ]

  -- `rx_arp` with op = ARP_OP_REPLY: `dst` is the frame's destination, `spa` and `sha` the sender's.
  unfoldable pub rx_arp_reply : Host → ℕ → ℕ → ℕ → ArpState D → ArpState D
  unfolding update_arp_cache schedule_timer dequeue
  rx_arp_reply host dst spa sha s =
      if dst == host.unicast_mac
      then (if s.arp_wait_list spa
          then dequeue spa sha (schedule_timer (flush_entry spa) (update_arp_cache spa sha s))
          else (if s.arp_wait_prob_list spa
              then record s { conflict_ips = s.conflict_ips ++ (spa ∷ []) }
              else s))
      else s

  -- `rx_arp` with op = ARP_OP_REQUEST: `src` is the frame's source.
  unfoldable pub rx_arp_request : Host → ℕ → ℕ → ℕ → ArpState D → ArpState D
  unfolding update_arp_cache tx_arp_reply
  rx_arp_request host src spa tpa s =
      if tpa == host.unicast_ip then update_arp_cache spa src (tx_arp_reply src spa s) else s

  -- A task of the timer is executed: `set.remove` raises KeyError on an address that is not there.
  unfoldable pub execute : Task → ArpState D → ArpState D
  unfolding set_at
  execute (wait_remove ip) s =
      if s.arp_wait_list ip
      then record s { arp_wait_list = set_at s.arp_wait_list ip false }
      else record s { raised = true }
  execute (probe_done ip) s =
      if s.arp_wait_prob_list ip
      then record s { arp_wait_prob_list = set_at s.arp_wait_prob_list ip false }
      else record s { raised = true }
  execute (flush_entry ip) s = record s { arp_cache = set_at s.arp_cache ip none }

-- What happens to the address resolution: a datagram to send, an ARP packet, or a task of the timer.
pub data ArpEvent (D : Type 0) : Type 0 where
  send : ℕ → D → ArpEvent D
  reply request : ℕ → ℕ → ℕ → ArpEvent D
  expire : Task → ArpEvent D

module _ {D : Type 0} where
  unfoldable pub step : Host → ArpEvent D → ArpState D → ArpState D
  unfolding tx_ip_to rx_arp_reply rx_arp_request execute
  step host (send tpa d) s = tx_ip_to tpa d s
  step host (reply dst spa sha) s = rx_arp_reply host dst spa sha s
  step host (request src spa tpa) s = rx_arp_request host src spa tpa s
  step host (expire t) s = execute t s

  unfoldable pub run : Host → List (ArpEvent D) → ArpState D → ArpState D
  unfolding step
  run host [] s = s
  run host (e ∷ es) s = run host es (step host e s)
