-- ===== src/Arp/Same.antt =====
-- What leaves one address alone in the operations of tipy/components/arp_cache.py and ip_cache.py.
use tipy.Common.{
  ℕ, ◌+◌, ◌≡◌, refl, sym, ap, ◌∙◌, Bool, true, false, Option, none, some, List, [], ◌∷◌, ◌++◌,
  if◌then◌else◌, ◌==◌, arith,
}
use tipy.Arp.{
  wait_remove, Frame, arp_request, arp_reply, ip_frame, ArpState, set_at, tx_ether, schedule_timer,
  update_arp_cache, arp_wait_add, enqueue, frames_to, dequeue,
}

module _ {ℓ} {A : Type ℓ} where
  pub set_at-here : (d : ℕ → A) (k : ℕ) (v : A) → set_at d k v k ≡ v
  unfolding set_at
  set_at-here d k v = ap (λ t. if t then v else d k) (self k)
    where
      self : (k : ℕ) → (k == k) ≡ true
      self k = ground arith

  pub set_at-other : (d : ℕ → A) (k k' : ℕ) (v : A) → (k == k') ≡ false → set_at d k v k' ≡ d k'
  unfolding set_at
  set_at-other d k k' v e = ap (λ t. if t then v else d k') e

module _ {ℓ} {A : Type ℓ} where
  -- A value that is there already.
  pub set_at-same : (d : ℕ → A) (k k' : ℕ) (v : A) → d k' ≡ v → set_at d k v k' ≡ d k'
  unfolding set_at
  set_at-same d k k' v e = go (k == k')
    where
      go : (b : Bool) → (if b then v else d k') ≡ d k'
      go true = sym e
      go false = refl

pub known : (n k : ℕ) → (n == k) ≡ true → n ≡ k
known n k e = ground arith

module _ {D : Type 0} where
  -- The requests for `ip` among the frames.
  unfoldable pub asks : ℕ → List (Frame D) → ℕ
  asks ip [] = 0
  asks ip (arp_request tpa ∷ fs) = (if tpa == ip then 1 else 0) + asks ip fs
  asks ip (arp_reply tha tpa ∷ fs) = asks ip fs
  asks ip (ip_frame mac d ∷ fs) = asks ip fs

  pub asks-append : (ip : ℕ) (fs gs : List (Frame D)) → asks ip (fs ++ gs) ≡ asks ip fs + asks ip gs
  unfolding asks
  asks-append ip [] gs = omega arith
  asks-append ip (arp_request tpa ∷ fs) gs = omega (arith, asks-append ip fs gs)
  asks-append ip (arp_reply tha tpa ∷ fs) gs = asks-append ip fs gs
  asks-append ip (ip_frame mac d ∷ fs) gs = asks-append ip fs gs

  pub asks-frames_to : (ip mac : ℕ) (ds : List D) → asks ip (frames_to mac ds) ≡ 0
  unfolding asks frames_to
  asks-frames_to ip mac [] = refl
  asks-frames_to ip mac (d ∷ ds) = asks-frames_to ip mac ds

  -- Nothing about `ip` differs.
  pub record Same (ip : ℕ) (s s' : ArpState D) : Type 0 where
    pub cached : s'.arp_cache ip ≡ s.arp_cache ip
    pub waits : s'.arp_wait_list ip ≡ s.arp_wait_list ip
    pub queued : s'.pending_datagrams ip ≡ s.pending_datagrams ip
    pub asked : asks ip s'.sent ≡ asks ip s.sent

  pub Same-refl : (ip : ℕ) (s : ArpState D) → Same ip s s
  Same-refl ip s = record { cached = refl; waits = refl; queued = refl; asked = refl }

  pub Same-trans : (ip : ℕ) (s t u : ArpState D) → Same ip s t → Same ip t u → Same ip s u
  Same-trans ip s t u a b = record {
    cached = b.cached ∙ a.cached;
    waits = b.waits ∙ a.waits;
    queued = b.queued ∙ a.queued;
    asked = b.asked ∙ a.asked;
  }

  pub added : (ip : ℕ) (fs gs : List (Frame D)) → asks ip gs ≡ 0 → asks ip (fs ++ gs) ≡ asks ip fs
  added ip fs gs e = omega (arith, asks-append ip fs gs)

  pub tx_ether-Same :
      (ip : ℕ) (f : Frame D) (s : ArpState D) → asks ip (f ∷ []) ≡ 0 → Same ip s (tx_ether f s)
  unfolding tx_ether
  tx_ether-Same ip f s e = record {
    cached = refl;
    waits = refl;
    queued = refl;
    asked = added ip s.sent (f ∷ []) e;
  }

  pub update-Same :
      (ip k mac : ℕ) (s : ArpState D) → (k == ip) ≡ false → Same ip s (update_arp_cache k mac s)
  unfolding update_arp_cache
  update-Same ip k mac s e = go (s.arp_cache k)
    where
      go :
          (o : Option ℕ)
          → Same ip s (elim o as (λ _. ArpState D) [
            | none ↦ record s { arp_cache = set_at s.arp_cache k (some mac) }
            | some _ ↦ s
          ])
      go none = record {
        cached = set_at-other s.arp_cache k ip (some mac) e;
        waits = refl;
        queued = refl;
        asked = refl;
      }
      go (some m) = Same-refl ip s

  pub wait_add-Same : (ip k : ℕ) (s : ArpState D) → (k == ip) ≡ false → Same ip s (arp_wait_add k s)
  unfolding arp_wait_add schedule_timer
  wait_add-Same ip k s e = go (s.arp_wait_list k)
    where
      go :
          (b : Bool)
          → Same ip s (
              if b
              then s
              else schedule_timer
                  (wait_remove k)
                  (record s { arp_wait_list = set_at s.arp_wait_list k true }))
      go true = Same-refl ip s
      go false = record {
        cached = refl;
        waits = set_at-other s.arp_wait_list k ip true e;
        queued = refl;
        asked = refl;
      }

  pub enqueue-Same :
      (ip k : ℕ) (d : D) (s : ArpState D) → (k == ip) ≡ false → Same ip s (enqueue k d s)
  unfolding enqueue
  enqueue-Same ip k d s e = go (s.pending_datagrams k)
    where
      go :
          (o : Option (List D))
          → Same ip s (elim o as (λ _. ArpState D) [
            | none ↦ record s { pending_datagrams = set_at s.pending_datagrams k (some (d ∷ [])) }
            | some queue ↦ record s {
              pending_datagrams = set_at s.pending_datagrams k (some (queue ++ (d ∷ [])));
            }
          ])
      go none = record {
        cached = refl;
        waits = refl;
        queued = set_at-other s.pending_datagrams k ip _ e;
        asked = refl;
      }
      go (some queue) = record {
        cached = refl;
        waits = refl;
        queued = set_at-other s.pending_datagrams k ip _ e;
        asked = refl;
      }

  pub dequeue-Same :
      (ip k mac : ℕ) (s : ArpState D) → (k == ip) ≡ false → Same ip s (dequeue k mac s)
  unfolding dequeue
  dequeue-Same ip k mac s e = go (s.pending_datagrams k)
    where
      go :
          (o : Option (List D))
          → Same ip s (elim o as (λ _. ArpState D) [
            | none ↦ record s { raised = true }
            | some queue ↦ record s {
              sent = s.sent ++ frames_to mac queue;
              pending_datagrams = set_at s.pending_datagrams k none;
            }
          ])
      go none = record { cached = refl; waits = refl; queued = refl; asked = refl }
      go (some queue) = record {
        cached = refl;
        waits = refl;
        queued = set_at-other s.pending_datagrams k ip none e;
        asked = added ip s.sent (frames_to mac queue) (asks-frames_to ip mac queue);
      }
