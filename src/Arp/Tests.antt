-- ===== src/Arp/Tests.antt =====
-- Datagrams, here numbers, for the address 9.
use tipy.Common.{ℕ, ◌≡◌, refl, false, none, List, [], ◌∷◌, ◌++◌}
use tipy.Arp.{
  ArpState, Host, arp_request, ArpEvent, send, reply, request, expire, wait_remove, flush_entry,
  step, run, frames_to,
}
use tipy.Arp.Same.{asks}
use tipy.Arp.Blocked.{Blocked, all_sent_to, NoneFrom, run-Blocked}
use tipy.Arp.Resolution.{Resolved, sends, reply-sends}

abbrev host : Host
host = record { unicast_mac = 77; unicast_ip = 5 }

abbrev start : ArpState ℕ
start = record {
  arp_cache = λ ip. none;
  arp_wait_list = λ ip. false;
  arp_wait_prob_list = λ ip. false;
  pending_datagrams = λ ip. none;
  tasks = [];
  conflict_ips = [];
  sent = [];
  raised = false;
}

reply-sends_example :
    Resolved 9 42
      (arp_request 9 ∷ frames_to 42 (1 ∷ 2 ∷ 3 ∷ []))
      (step host (reply 77 9 42) (run host (sends 9 (1 ∷ 2 ∷ 3 ∷ [])) start))
reply-sends_example = reply-sends host 9 42 1 (2 ∷ 3 ∷ []) start refl refl refl

-- A request that nobody answers.
abbrev timed_out : List (ArpEvent ℕ)
timed_out = send 9 1 ∷ expire (wait_remove 9) ∷ []

timed_out-Blocked : Blocked 9 (1 ∷ []) (run host timed_out start)
unfolding run
timed_out-Blocked = record { unknown = refl; unawaited = refl; queued = refl }

abbrev later : List (ArpEvent ℕ)
later =
    send 9 2 ∷ reply 77 9 42 ∷ send 8 3 ∷ expire (flush_entry 9) ∷ request 50 8 5 ∷ send 9 4 ∷ []

later-NoneFrom : NoneFrom 9 later
unfolding NoneFrom
later-NoneFrom = (refl, tt)

run-Blocked_example :
    Blocked 9 ((1 ∷ []) ++ all_sent_to 9 later) (run host later (run host timed_out start))
    × (asks 9 (run host later (run host timed_out start)).sent
        ≡ asks 9 (run host timed_out start).sent)
run-Blocked_example =
    run-Blocked host 9 (1 ∷ []) later (run host timed_out start) later-NoneFrom timed_out-Blocked
