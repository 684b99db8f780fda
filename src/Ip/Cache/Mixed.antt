-- ===== src/Ip/Cache/Mixed.antt =====
-- Fragments of several datagrams in any order, in the sessions of tipy/components/ip_cache.py.
use tipy.Common.{
  ℕ, ◌≡◌, refl, ap, ◌∙◌, inl, inr, Bool, true, false, Bool-cases, none, some, ◌&&◌, List, [], ◌∷◌,
  if◌then◌else◌, ◌==◌, arith,
}
use mathlib.Core.Path.{subst}
use tipy.Ip.Reass.{Fragment, Resources, Result, allocated, reass}
use tipy.Ip.Cache.{BufferId, buffer_id, same, IpCache, ip_reass}
use tipy.Ip.Cache.Runs.{left_over, Steps, resources_of, ip_reass-Steps, ip_reass-apart}

-- The results of calls of `_ip_reass`, exceptions included.
unfoldable pub ip_results : List Fragment → IpCache → List Result
unfolding ip_reass
ip_results [] c = []
ip_results (f ∷ fs) c = let (result, c') = ip_reass f c in result ∷ ip_results fs c'

-- One datagram by itself: its resources, and new ones behind a datagram that is whole.
unfoldable pub results_alone : List Fragment → Resources → List Result
results_alone [] r = []
results_alone (f ∷ fs) r =
    let (result, r') = reass f r in result ∷ results_alone fs (left_over result r')

-- RFC 791: the fragments of a datagram agree in source, destination, identification and protocol.
module _ (src dst id protocol : ℕ) where
  abbrev pub belongs : Fragment → Bool
  belongs f = (f.src == src) && ((f.dst == dst) && ((f.id == id) && (f.protocol == protocol)))

  unfoldable pub fragments_of : List Fragment → List Fragment
  fragments_of [] = []
  fragments_of (f ∷ fs) = if belongs f then f ∷ fragments_of fs else fragments_of fs

  -- The results at the places of the datagram's fragments
  unfoldable pub results_of : List Fragment → List Result → List Result
  results_of [] rs = []
  results_of (f ∷ fs) [] = []
  results_of (f ∷ fs) (r ∷ rs) = if belongs f then r ∷ results_of fs rs else results_of fs rs

  abbrev key : BufferId
  key = record { src = src; dst = dst; id = id; protocol = protocol }

  four :
      (a b c d : Bool)
      → (a && (b && (c && d))) ≡ true
      → (a ≡ true) × (b ≡ true) × (c ≡ true) × (d ≡ true)
  four a b c d h = ground arith

  equal : (m n : ℕ) → (m == n) ≡ true → m ≡ n
  equal m n h = ground arith

  belongs-key : (f : Fragment) → belongs f ≡ true → buffer_id f ≡ key
  belongs-key f h =
      let (a, b, c, d) = four _ _ _ _ h in
      λ i. record {
        src = equal f.src src a i;
        dst = equal f.dst dst b i;
        id = equal f.id id c i;
        protocol = equal f.protocol protocol d i;
      }

  -- A fragment of another datagram has another key.
  others-kept :
      (f : Fragment) (c : IpCache)
      → belongs f ≡ false
      → resources_of key (ip_reass f c).1 ≡ resources_of key c
  unfolding resources_of same
  others-kept f c other =
      ap (λ o. elim o as (λ _. Resources) [ none ↦ allocated | some s ↦ s.resources ])
        (ip_reass-apart f key c other)

  -- In any sequence of fragments of any datagrams, and from any cache, the fragments of one datagram
  -- have the results that they have by themselves: no fragment of another datagram, by its source,
  -- destination, identification or protocol, has a part in them.
  pub ip_results-results_alone :
      (fs : List Fragment) (c : IpCache)
      → results_of fs (ip_results fs c) ≡ results_alone (fragments_of fs) (resources_of key c)
  unfolding ip_results results_alone fragments_of results_of Steps
  ip_results-results_alone [] c = refl
  ip_results-results_alone (f ∷ fs) c =
      let (result, c') = ip_reass f c in
      let rest = ip_results-results_alone fs c' in
      elim (Bool-cases (belongs f)) [
        | inl mine ↦
            let steps =
              subst (λ k. Steps k (reass f (resources_of k c)) (ip_reass f c)) (belongs-key f mine)
                (ip_reass-Steps f c) in
            rw mine (
              ap (λ r. r ∷ results_of fs (ip_results fs c')) steps.0
              ∙ ap (λ rs. (reass f (resources_of key c)).0 ∷ rs)
                  (rest ∙ ap (results_alone (fragments_of fs)) steps.1))
        | inr other ↦ rw other (rest ∙ ap (results_alone (fragments_of fs)) (others-kept f c other))
      ]
