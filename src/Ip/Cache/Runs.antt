-- ===== src/Ip/Cache/Runs.antt =====
-- The fragments of one datagram, as tipy/components/ip_cache.py keeps them apart from all others.
use tipy.Common.{
  ℕ, ◌≡◌, refl, sym, ap, ◌∙◌, inl, inr, false, Option, none, some, Option-cases, List, [], ◌∷◌,
}
use mathlib.Core.Path.{subst}
use tipy.Ip.Reass.{
  Fragment, Resources, Result, waiting, key_error, struct_error, defragmented, allocated, reass,
}
use tipy.Ip.Reass.Late.{arrivals}
use tipy.Ip.Cache.{
  BufferId, buffer_id, same, Session, IpCache, ip_reass_timer, remove, dealloc_ip_reass_mem,
  alloc_ip_reass_mem, settle, ip_reass,
}
use tipy.Ip.Cache.Dict.{put-here, put-other}
use tipy.Ip.Cache.Timed.{alloc-some, alloc-none}

-- Calls of `_ip_reass`, up to the first that does not return False.
unfoldable ip_arrivals : List Fragment → IpCache → Result × List Fragment
unfolding ip_reass
ip_arrivals [] c = (waiting, [])
ip_arrivals (f ∷ fs) c =
    let (result, c') = ip_reass f c in
    elim result [ waiting ↦ ip_arrivals fs c' | ended ↦ (ended, fs) ]

unfoldable AllOf : BufferId → List Fragment → Type 0
AllOf b [] = Unit
AllOf b (f ∷ fs) = (buffer_id f ≡ b) × AllOf b fs

-- The resources that the next fragment of `b` will find.
unfoldable pub resources_of : BufferId → IpCache → Resources
resources_of b c = elim (c.fragments_cache b) [ none ↦ allocated | some s ↦ s.resources ]

-- What the next fragment finds behind a call with this result: a datagram that is whole has given
-- its resources back.
abbrev pub left_over : Result → Resources → Resources
left_over waiting r = r
left_over (defragmented d) r = allocated
left_over key_error r = r
left_over struct_error r = r

-- What a call does for the datagram: the result is `reass`'s, and so are the resources.
unfoldable pub Steps : BufferId → Result × Resources → Result × IpCache → Type 0
Steps b (result, r) (result', c) = (result' ≡ result) × (resources_of b c ≡ left_over result r)

resources_in : Option Session → Resources
resources_in none = allocated
resources_in (some s) = s.resources

resources_of-found :
    (b : BufferId) (c : IpCache) (o : Option Session)
    → c.fragments_cache b ≡ o
    → resources_of b c ≡ resources_in o
unfolding resources_of resources_in
resources_of-found b c none e = rw (resources_of, e)
resources_of-found b c (some s) e = rw (resources_of, e)

settle-Steps :
    (f : Fragment) (b : BufferId) (t : ℕ) (p : Result × Resources) (c : IpCache)
    → Steps b p (settle f b t p c)
unfolding Steps settle ip_reass_timer remove dealloc_ip_reass_mem resources_in
settle-Steps f b t (waiting, r) c = (
  refl,
  resources_of-found b (ip_reass_timer f b r (remove t c))
      (some (record { resources = r; timer = c.next_task })) (put-here c.fragments_cache b _),
)
settle-Steps f b t (defragmented d, r) c = (
  refl,
  resources_of-found b (dealloc_ip_reass_mem b (remove t c)) none
      (put-here c.fragments_cache b none),
)
settle-Steps f b t (key_error, r) c = (
  refl,
  resources_of-found b _ (some (record { resources = r; timer = t }))
      (put-here c.fragments_cache b _),
)
settle-Steps f b t (struct_error, r) c = (
  refl,
  resources_of-found b _ (some (record { resources = r; timer = t }))
      (put-here c.fragments_cache b _),
)

alloc-resources_of :
    (f : Fragment) (b : BufferId) (c : IpCache)
    → (alloc_ip_reass_mem f b c).0.resources ≡ resources_of b c
unfolding resources_in
alloc-resources_of f b c = elim (Option-cases (c.fragments_cache b)) [
  | inl e ↦ ap (λ p. p.0.resources) (alloc-none f b c e) ∙ sym (resources_of-found b c none e)
  | inr (s, e) ↦
      ap (λ p. p.0.resources) (alloc-some f b s c e) ∙ sym (resources_of-found b c (some s) e)
]

pub ip_reass-Steps :
    (f : Fragment) (c : IpCache)
    → Steps (buffer_id f) (reass f (resources_of (buffer_id f) c)) (ip_reass f c)
unfolding ip_reass
ip_reass-Steps f c =
    let b = buffer_id f in
    let (s, c') = alloc_ip_reass_mem f b c in
    subst (λ r. Steps b (reass f r) (ip_reass f c)) (alloc-resources_of f b c)
      (settle-Steps f b s.timer (reass f s.resources) c')

-- The fragments of one datagram are put together from the resources of their own session, whatever
-- other sessions and timers the cache has.
ip_arrivals-arrivals :
    (b : BufferId) (fs : List Fragment) (c : IpCache)
    → AllOf b fs
    → ip_arrivals fs c ≡ arrivals fs (resources_of b c)
unfolding ip_arrivals arrivals AllOf Steps
ip_arrivals-arrivals b [] c h = refl
ip_arrivals-arrivals b (f ∷ fs) c (e, h) =
    go (λ c'. ip_arrivals-arrivals b fs c' h) (reass f (resources_of b c)) (ip_reass f c)
      (subst (λ k. Steps k (reass f (resources_of k c)) (ip_reass f c)) e (ip_reass-Steps f c))
  where
    ending : Result × IpCache → Result → Result × List Fragment
    ending q result = elim result [ waiting ↦ ip_arrivals fs q.1 | ended ↦ (ended, fs) ]

    go :
        ((c' : IpCache) → ip_arrivals fs c' ≡ arrivals fs (resources_of b c'))
        → (p : Result × Resources) (q : Result × IpCache) → Steps b p q
        → ending q q.0 ≡ (elim p.0 as (λ _. Result × List Fragment) [
          | waiting ↦ arrivals fs p.1
          | ended ↦ (ended, fs)
        ])
    go rest (waiting, r) q (same_result, kept) =
        ap (ending q) same_result ∙ rest q.1 ∙ ap (arrivals fs) kept
    go rest (defragmented d, r) q (same_result, kept) = ap (ending q) same_result
    go rest (key_error, r) q (same_result, kept) = ap (ending q) same_result
    go rest (struct_error, r) q (same_result, kept) = ap (ending q) same_result

settle-apart :
    (f : Fragment) (b k : BufferId) (t : ℕ) (p : Result × Resources) (c : IpCache)
    → same b k ≡ false
    → (settle f b t p c).1.fragments_cache k ≡ c.fragments_cache k
unfolding settle ip_reass_timer remove dealloc_ip_reass_mem
settle-apart f b k t (waiting, r) c e = put-other c.fragments_cache b k _ e
settle-apart f b k t (defragmented d, r) c e = put-other c.fragments_cache b k none e
settle-apart f b k t (key_error, r) c e = put-other c.fragments_cache b k _ e
settle-apart f b k t (struct_error, r) c e = put-other c.fragments_cache b k _ e

alloc-apart :
    (f : Fragment) (b k : BufferId) (c : IpCache)
    → same b k ≡ false
    → (alloc_ip_reass_mem f b c).1.fragments_cache k ≡ c.fragments_cache k
unfolding ip_reass_timer
alloc-apart f b k c e = elim (Option-cases (c.fragments_cache b)) [
  | inl none_there ↦
      ap (λ p. p.1.fragments_cache k) (alloc-none f b c none_there)
      ∙ put-other c.fragments_cache b k _ e
  | inr (s, there) ↦ ap (λ p. p.1.fragments_cache k) (alloc-some f b s c there)
]

-- A fragment leaves the sessions of all other datagrams as they are.
pub ip_reass-apart :
    (f : Fragment) (k : BufferId) (c : IpCache)
    → same (buffer_id f) k ≡ false
    → (ip_reass f c).1.fragments_cache k ≡ c.fragments_cache k
unfolding ip_reass
ip_reass-apart f k c e =
    let b = buffer_id f in
    let (s, c') = alloc_ip_reass_mem f b c in
    settle-apart f b k s.timer (reass f s.resources) c' e ∙ alloc-apart f b k c e
