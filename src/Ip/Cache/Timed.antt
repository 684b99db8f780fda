-- ===== src/Ip/Cache/Timed.antt =====
-- Every session of tipy/components/ip_cache.py has a timer, and every timer a session.
use tipy.Common.{
  ℕ, ◌<◌, ◌≡◌, refl, sym, ap, ◌∙◌, ◌⊎◌, inl, inr, true, false, Option, none, some, Option-cases,
  Bool-cases, ◌==◌, arith,
}
use mathlib.Core.Path.{subst}
use tipy.Ip.Reass.{
  Fragment, Resources, Result, waiting, key_error, struct_error, defragmented, allocated, reass,
}
use tipy.Ip.Cache.Dict.{
  same_refl, same-≡, put-here, put-other, put_task-here, put_task-other, put-inverse,
  put_task-inverse, some-injective, less-apart,
}
use tipy.Ip.Cache.{
  BufferId, buffer_id, same, Session, IpCache, put, put_task, ip_reass_timer, remove,
  dealloc_ip_reass_mem, alloc_ip_reass_mem, settle, ip_reass, reass_timer_exceeded,
}

-- The session of `k` has a pending timer, which is for `k`.
pub HasTimer : IpCache → BufferId → Session → Type 0
HasTimer c k s = (f : Fragment) × (c.pending s.timer ≡ some (k, f))

pub HasSession : IpCache → ℕ → BufferId → Type 0
HasSession c n k = (s : Session) × ((c.fragments_cache k ≡ some s) × (s.timer ≡ n))

pub record IsTimed (c : IpCache) : Type 0 where
  pub timed : (k : BufferId) (s : Session) → c.fragments_cache k ≡ some s → HasTimer c k s
  pub owned : (n : ℕ) (k : BufferId) (f : Fragment) → c.pending n ≡ some (k, f) → HasSession c n k
  pub bounded : (n : ℕ) (k : BufferId) (f : Fragment) → c.pending n ≡ some (k, f) → n < c.next_task

-- The same, but for the session of `b`, which no pending timer is for.
record IsTimedBut (b : BufferId) (c : IpCache) : Type 0 where
  pub timed :
      (k : BufferId) (s : Session)
      → same b k ≡ false
      → c.fragments_cache k ≡ some s
      → HasTimer c k s
  pub owned :
      (n : ℕ) (k : BufferId) (f : Fragment)
      → c.pending n ≡ some (k, f)
      → (same b k ≡ false) × HasSession c n k
  pub bounded : (n : ℕ) (k : BufferId) (f : Fragment) → c.pending n ≡ some (k, f) → n < c.next_task

-- A session without a timer gets one.
ip_reass_timer-IsTimed :
    (f : Fragment) (b : BufferId) (r : Resources) (c : IpCache)
    → IsTimedBut b c
    → IsTimed (ip_reass_timer f b r c)
unfolding ip_reass_timer HasTimer HasSession
ip_reass_timer-IsTimed f b r c t =
    let new : Session = record { resources = r; timer = c.next_task } in
    let at : ℕ = c.next_task in
    record {
      timed = λ k s h. elim (put-inverse c.fragments_cache b k (some new) s h) [
        | inl (bk, e) ↦ (
          f,
          ap (put_task c.pending at (some (b, f)))
                (ap (λ q. q.timer) (sym (some-injective new s e)))
              ∙ put_task-here c.pending at (some (b, f))
              ∙ ap (λ q. some (q, f)) bk,
        )
        | inr (apart, old) ↦
            let (g, p) = t.timed k s apart old in
            (
              g,
              put_task-other c.pending at s.timer (some (b, f))
                    (less-apart at s.timer (t.bounded s.timer k g p))
                  ∙ p,
            )
      ];
      owned = λ n k g h. elim (put_task-inverse c.pending at n (some (b, f)) (k, g) h) [
        | inl (nn, e) ↦
            let bk : b ≡ k = ap (λ q. q.0) (some-injective (b, f) (k, g) e) in
            (
              new,
              (
                ap (put c.fragments_cache b (some new)) (sym bk)
                    ∙ put-here c.fragments_cache b (some new),
                nn,
              ),
            )
        | inr (apart, old) ↦
            let (nb, (s, (p, q))) = t.owned n k g old in
            (s, (put-other c.fragments_cache b k (some new) nb ∙ p, q))
      ];
      bounded = λ n k g h. elim (put_task-inverse c.pending at n (some (b, f)) (k, g) h) [
        | inl (nn, e) ↦ omega (arith, nn)
        | inr (apart, old) ↦ omega (arith, t.bounded n k g old)
      ];
    }

-- Without a session, no timer is for the key; without its timer, neither.
none-IsTimedBut :
    (b : BufferId) (c : IpCache) → IsTimed c → c.fragments_cache b ≡ none → IsTimedBut b c
unfolding HasSession
none-IsTimedBut b c t empty = record {
  timed = λ k s apart h. t.timed k s h;
  owned = λ n k g h.
      let (s, (p, q)) = t.owned n k g h in
      (
        elim (Bool-cases (same b k)) [
          | inl e ↦ absurd (cc (empty, ap c.fragments_cache (same-≡ b k e), p))
          | inr e ↦ e
        ],
        (s, (p, q)),
      );
  bounded = t.bounded;
}

not_equal : (n k : ℕ) → n ≡ k → (n == k) ≡ false → ⊥
not_equal n k e h = ground arith

timers_apart :
    (b k : BufferId) (s s' : Session) (c : IpCache)
    → IsTimed c
    → c.fragments_cache b ≡ some s
    → c.fragments_cache k ≡ some s'
    → same b k ≡ false
    → (s.timer == s'.timer) ≡ false
unfolding HasTimer
timers_apart b k s s' c t here there apart =
    let (g, p) = t.timed b s here in
    let (g', p') = t.timed k s' there in
    elim (Bool-cases (s.timer == s'.timer)) [
      | inl e ↦
          let met : Path (Option (BufferId × Fragment)) (some (b, g)) (some (k, g')) =
            sym p ∙ ap c.pending (known s.timer s'.timer e) ∙ p' in
          let bk : b ≡ k = ap (λ q. q.0) (some-injective (b, g) (k, g') met) in
          let clash : true ≡ false = sym (same_refl b) ∙ ap (same b) bk ∙ apart in absurd (cc clash)
      | inr e ↦ e
    ]
  where
    known : (n k : ℕ) → (n == k) ≡ true → n ≡ k
    known n k e = ground arith

one_timer :
    (b k : BufferId) (s s' : Session) (c : IpCache) (n : ℕ)
    → c.fragments_cache b ≡ some s
    → c.fragments_cache k ≡ some s'
    → b ≡ k
    → s'.timer ≡ n
    → (s.timer == n) ≡ false
    → ⊥
one_timer b k s s' c n here there bk q apart =
    let e : s ≡ s' = some-injective s s' (sym here ∙ ap c.fragments_cache bk ∙ there) in
    not_equal s.timer n (ap (λ x. x.timer) e ∙ q) apart

remove-IsTimedBut :
    (b : BufferId) (s : Session) (c : IpCache)
    → IsTimed c
    → c.fragments_cache b ≡ some s
    → IsTimedBut b (remove s.timer c)
unfolding remove HasSession HasTimer
remove-IsTimedBut b s c t here = record {
  timed = λ k s' apart h.
      let (g, p) = t.timed k s' h in
      (
        g,
        put_task-other c.pending s.timer s'.timer none (timers_apart b k s s' c t here h apart) ∙ p,
      );
  owned = λ n k g h. elim (put_task-inverse c.pending s.timer n none (k, g) h) [
    | inl (nn, e) ↦ absurd (cc e)
    | inr (apart, old) ↦
        let (s', (p, q)) = t.owned n k g old in
        (
          elim (Bool-cases (same b k)) [
            | inl e ↦ absurd (one_timer b k s s' c n here p (same-≡ b k e) q apart)
            | inr e ↦ e
          ],
          (s', (p, q)),
        )
  ];
  bounded = λ n k g h. elim (put_task-inverse c.pending s.timer n none (k, g) h) [
    | inl (nn, e) ↦ absurd (cc e)
    | inr (apart, old) ↦ t.bounded n k g old
  ];
}

dealloc-IsTimed : (b : BufferId) (c : IpCache) → IsTimedBut b c → IsTimed (dealloc_ip_reass_mem b c)
unfolding dealloc_ip_reass_mem HasTimer HasSession
dealloc-IsTimed b c t = record {
  timed = λ k s h. elim (put-inverse c.fragments_cache b k none s h) [
    | inl (bk, e) ↦ absurd (cc e)
    | inr (apart, old) ↦ t.timed k s apart old
  ];
  owned = λ n k g h.
      let (nb, (s, (p, q))) = t.owned n k g h in
      (s, (put-other c.fragments_cache b k none nb ∙ p, q));
  bounded = t.bounded;
}

-- The resources of a session, at the same timer.
kept-IsTimed :
    (b : BufferId) (s : Session) (r : Resources) (c : IpCache)
    → IsTimed c
    → c.fragments_cache b ≡ some s
    → IsTimed (record c {
      fragments_cache = put c.fragments_cache b (some (record { resources = r; timer = s.timer }));
    })
unfolding HasTimer HasSession
kept-IsTimed b s r c t here =
    let new : Session = record { resources = r; timer = s.timer } in
    record {
      timed = λ k s' h. elim (put-inverse c.fragments_cache b k (some new) s' h) [
        | inl (bk, e) ↦
            let (g, p) = t.timed b s here in
            (
              g,
              ap (λ q. c.pending q.timer) (sym (some-injective new s' e))
                  ∙ p
                  ∙ ap (λ q. some (q, g)) bk,
            )
        | inr (apart, old) ↦ t.timed k s' old
      ];
      owned = λ n k g h.
          let (s', (p, q)) = t.owned n k g h in
          elim (Bool-cases (same b k)) [
            | inl e ↦
                let bk : b ≡ k = same-≡ b k e in
                (
                  new,
                  (
                    ap (put c.fragments_cache b (some new)) (sym bk)
                        ∙ put-here c.fragments_cache b (some new),
                    ap (λ x. x.timer) (some-injective s s' (sym here ∙ ap c.fragments_cache bk ∙ p))
                        ∙ q,
                  ),
                )
            | inr e ↦ (s', (put-other c.fragments_cache b k (some new) e ∙ p, q))
          ];
      bounded = t.bounded;
    }

settle-IsTimed :
    (f : Fragment) (b : BufferId) (s : Session) (p : Result × Resources) (c : IpCache)
    → IsTimed c
    → c.fragments_cache b ≡ some s
    → IsTimed (settle f b s.timer p c).1
unfolding settle
settle-IsTimed f b s (waiting, r) c t here =
    ip_reass_timer-IsTimed f b r (remove s.timer c) (remove-IsTimedBut b s c t here)
settle-IsTimed f b s (defragmented d, r) c t here =
    dealloc-IsTimed b (remove s.timer c) (remove-IsTimedBut b s c t here)
settle-IsTimed f b s (key_error, r) c t here = kept-IsTimed b s r c t here
settle-IsTimed f b s (struct_error, r) c t here = kept-IsTimed b s r c t here

pub alloc-some :
    (f : Fragment) (b : BufferId) (s : Session) (c : IpCache)
    → c.fragments_cache b ≡ some s
    → alloc_ip_reass_mem f b c ≡ (s, c)
unfolding alloc_ip_reass_mem
alloc-some f b s c e = rw (alloc_ip_reass_mem, e)

pub alloc-none :
    (f : Fragment) (b : BufferId) (c : IpCache)
    → c.fragments_cache b ≡ none
    → alloc_ip_reass_mem f b c
      ≡ (record { resources = allocated; timer = c.next_task }, ip_reass_timer f b allocated c)
unfolding alloc_ip_reass_mem
alloc-none f b c e = rw (alloc_ip_reass_mem, e)

-- What `_alloc_ip_reass_mem` makes sure of.
Allocated : BufferId → Session × IpCache → Type 0
Allocated b (s, c) = (c.fragments_cache b ≡ some s) × IsTimed c

alloc-Allocated :
    (f : Fragment) (b : BufferId) (c : IpCache) → IsTimed c → Allocated b (alloc_ip_reass_mem f b c)
unfolding Allocated ip_reass_timer
alloc-Allocated f b c t = elim (Option-cases (c.fragments_cache b)) [
  | inl e ↦ subst (Allocated b) (sym (alloc-none f b c e)) (
    put-here c.fragments_cache b _,
    ip_reass_timer-IsTimed f b allocated c (none-IsTimedBut b c t e),
  )
  | inr (s, e) ↦ subst (Allocated b) (sym (alloc-some f b s c e)) (e, t)
]

-- A fragment keeps every session with a pending timer of its own, and every pending timer with a
-- session, whatever comes of it, exceptions included.
pub ip_reass-IsTimed : (f : Fragment) (c : IpCache) → IsTimed c → IsTimed (ip_reass f c).1
unfolding ip_reass Allocated
ip_reass-IsTimed f c t =
    let b = buffer_id f in
    let (s, c') = alloc_ip_reass_mem f b c in
    let (here, t') = alloc-Allocated f b c t in
    settle-IsTimed f b s (reass f s.resources) c' t' here

expired :
    (n : ℕ) (b : BufferId) (f : Fragment) (s : Session) (c : IpCache)
    → c.pending n ≡ some (b, f)
    → c.fragments_cache b ≡ some s
    → reass_timer_exceeded n c ≡ (some f, dealloc_ip_reass_mem b (remove n c))
unfolding reass_timer_exceeded remove
expired n b f s c p q = rw (reass_timer_exceeded, p, q)

-- The packet is reported, the session of `b` is gone, that of any other `k` is as it was, and every
-- session is timed.
pub HasFreed : BufferId → BufferId → Fragment → IpCache → Option Fragment × IpCache → Type 0
HasFreed b k f c (report, c') =
    (report ≡ some f)
    × (c'.fragments_cache b ≡ none)
    × IsTimed c'
    × ((same b k ≡ true) ⊎ (c'.fragments_cache k ≡ c.fragments_cache k))

-- A timer that expires frees its own session and no other, reports the packet that started it, and
-- keeps the rest timed.
pub reass_timer_exceeded-frees :
    (n : ℕ) (b k : BufferId) (f : Fragment) (c : IpCache)
    → IsTimed c
    → c.pending n ≡ some (b, f)
    → HasFreed b k f c (reass_timer_exceeded n c)
unfolding HasSession HasFreed dealloc_ip_reass_mem remove
reass_timer_exceeded-frees n b k f c t p =
    let (s, (here, at)) = t.owned n b f p in
    let but = subst (λ m. IsTimedBut b (remove m c)) at (remove-IsTimedBut b s c t here) in
    subst (HasFreed b k f c) (sym (expired n b f s c p here)) (
      refl,
      put-here c.fragments_cache b none,
      dealloc-IsTimed b (remove n c) but,
      (elim (Bool-cases (same b k)) [
        | inl e ↦ inl e
        | inr e ↦ inr (put-other c.fragments_cache b k none e)
      ]),
    )
