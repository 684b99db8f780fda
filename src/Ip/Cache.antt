-- ===== src/Ip/Cache.antt =====
-- `fragments_cache` of tipy/components/ip_cache.py, and `_ip_reass` of tipy/protocols/ip/rx.py with
-- its timers. A dictionary is a function to `Option`. A timer is the number of its task; the tasks
-- that are in the heap and not marked as deleted are `pending`, with the arguments of their call.
pub mod Dict
pub mod Timed
pub mod Runs
pub mod Mixed
use tipy.Common.{
  ℕ, zero, suc, ◌+◌, Bool, true, false, ◌&&◌, Option, none, some, List, [], ◌∷◌, if◌then◌else◌,
  ◌==◌,
}
use tipy.Ip.Reass.{
  Fragment, Resources, Result, waiting, key_error, struct_error, defragmented, allocated, reass,
}

-- The key of a datagram's session.
pub record BufferId : Type 0 where
  pub src : ℕ
  pub dst : ℕ
  pub id : ℕ
  pub protocol : ℕ

abbrev pub buffer_id : Fragment → BufferId
buffer_id f = record { src = f.src; dst = f.dst; id = f.id; protocol = f.protocol }

-- `==` of two keys
unfoldable pub same : BufferId → BufferId → Bool
same a b = (a.src == b.src) && ((a.dst == b.dst) && ((a.id == b.id) && (a.protocol == b.protocol)))

pub record Session : Type 0 where
  pub resources : Resources
  pub timer : ℕ

-- `next_task` is the number of the task that is scheduled next.
pub record IpCache : Type 0 where
  pub fragments_cache : BufferId → Option Session
  pub pending : ℕ → Option (BufferId × Fragment)
  pub next_task : ℕ

-- d[b] = v, and d.pop(b, None)
unfoldable pub put :
    {A : Type 0} → (BufferId → Option A) → BufferId → Option A → BufferId → Option A
unfolding same
put d b v k = if same b k then v else d k

unfoldable pub put_task : {A : Type 0} → (ℕ → Option A) → ℕ → Option A → ℕ → Option A
put_task d n v k = if n == k then v else d k

-- `_ip_reass_timer`, for a session with these resources
unfoldable pub ip_reass_timer : Fragment → BufferId → Resources → IpCache → IpCache
unfolding put put_task
ip_reass_timer f b r c = record {
  fragments_cache = put c.fragments_cache b (some (record { resources = r; timer = c.next_task }));
  pending = put_task c.pending c.next_task (some (b, f));
  next_task = suc c.next_task;
}

-- t.remove()
unfoldable pub remove : ℕ → IpCache → IpCache
unfolding put_task
remove t c = record c { pending = put_task c.pending t none }

-- `_dealloc_ip_reass_mem`
unfoldable pub dealloc_ip_reass_mem : BufferId → IpCache → IpCache
unfolding put
dealloc_ip_reass_mem b c = record c { fragments_cache = put c.fragments_cache b none }

-- `_alloc_ip_reass_mem`, and the session that is there behind it.
unfoldable pub alloc_ip_reass_mem : Fragment → BufferId → IpCache → Session × IpCache
unfolding ip_reass_timer
alloc_ip_reass_mem f b c = elim (c.fragments_cache b) [
  | some s ↦ (s, c)
  | none ↦ (record { resources = allocated; timer = c.next_task }, ip_reass_timer f b allocated c)
]

-- What follows a fragment: the timer is restarted, or the session ends with its timer, or an
-- exception leaves the resources as they are then.
unfoldable pub settle : Fragment → BufferId → ℕ → Result × Resources → IpCache → Result × IpCache
unfolding remove ip_reass_timer dealloc_ip_reass_mem put
settle f b t (result, r) c =
    let kept : IpCache = record c {
      fragments_cache = put c.fragments_cache b (some (record { resources = r; timer = t }));
    } in
    elim result [
      | waiting ↦ (waiting, ip_reass_timer f b r (remove t c))
      | defragmented datagram ↦ (defragmented datagram, dealloc_ip_reass_mem b (remove t c))
      | key_error ↦ (key_error, kept)
      | struct_error ↦ (struct_error, kept)
    ]

unfoldable pub ip_reass : Fragment → IpCache → Result × IpCache
unfolding alloc_ip_reass_mem settle
ip_reass f c =
    let b = buffer_id f in
    let (s, c') = alloc_ip_reass_mem f b c in settle f b s.timer (reass f s.resources) c'

-- A task is taken from the heap and executed: `_reass_timer_exceeded` frees its session. The
-- packet is the one of the ICMP message, which is sent if there was a session.
unfoldable pub reass_timer_exceeded : ℕ → IpCache → Option Fragment × IpCache
unfolding dealloc_ip_reass_mem put_task
reass_timer_exceeded t c = elim (c.pending t) [
  | none ↦ (none, c)
  | some (b, f) ↦
      let c' : IpCache = record c { pending = put_task c.pending t none } in
      elim (c.fragments_cache b) [
        | none ↦ (none, c')
        | some _ ↦ (some f, dealloc_ip_reass_mem b c')
      ]
]
