-- ===== src/Rxc/Expiry.antt =====
-- server-rxc-job.go: the heap of done jobs by expiry (`ServerRxcJobExpiryHeap`), with Go's
-- container/heap over its five methods. A number stands for a job's pointer; the slice is its length
-- and its entries. Times are numbers, 0 for the zero time; indices do not overflow.
pub mod Keys
pub mod Sift
pub mod Order
pub mod Swaps
pub mod Laws
use hodu.Prelude.{
  ℕ, zero, suc, ◌+◌, ◌-◌, ◌*◌, ◌/◌, Bool, true, false, not, ◌&&◌, ◌||◌, Option, none, some, ltb,
  leb, ◌==◌, if◌then◌else◌, update,
}

-- The fields of `ServerRxcJob` that `rxc_job_mtx` guards; `none` is the heap index -1.
pub record Entry : Type 0 where
  pub id : ℕ
  pub done : Option ℕ
  pub expire_at : ℕ
  pub heap_index : Option ℕ

pub record Heap : Type 0 where
  pub jobs : ℕ → Entry
  pub at : ℕ → ℕ
  pub len : ℕ

-- What `Less` compares of a job.
pub record Key : Type 0 where
  pub expire_at : ℕ
  pub id : ℕ

abbrev pub key_of : Entry → Key
key_of e = record { expire_at = e.expire_at; id = e.id }

abbrev pub earlier : Key → Key → Bool
earlier a b =
    if ltb a.expire_at b.expire_at
    then true
    else if ltb b.expire_at a.expire_at
    then false
    else ltb a.id b.id

abbrev pub key : Heap → ℕ → Key
key h i = key_of (h.jobs (h.at i))

-- Less
unfoldable pub less : Heap → ℕ → ℕ → Bool
less h i j = earlier (key h i) (key h j)

-- `job.heap_index = v`
abbrev pub set_index : ℕ → Option ℕ → (ℕ → Entry) → ℕ → Entry
set_index r v jobs = update jobs r (record (jobs r) { heap_index = v })

-- Swap
unfoldable pub swap : ℕ → ℕ → Heap → Heap
swap i j h =
    let x = h.at i in
    let y = h.at j in
    record h {
      jobs = set_index x (some j) (set_index y (some i) h.jobs);
      at = update (update h.at i y) j x;
    }

-- Push
unfoldable pub push_back : ℕ → Heap → Heap
push_back r h = record {
  jobs = set_index r (some h.len) h.jobs;
  at = update h.at h.len r;
  len = h.len + 1;
}

-- Pop
unfoldable pub pop_back : Heap → Heap
pop_back h = record h { jobs = set_index (h.at (h.len - 1)) none h.jobs; len = h.len - 1 }

abbrev pub parent : ℕ → ℕ
parent j = (j - 1) / 2

-- container/heap's `up`, on fuel.
unfoldable pub up : ℕ → ℕ → Heap → Heap
up zero j h = h
up (suc fuel) j h =
    let rest = up fuel (parent j) (swap (parent j) j h) in
    if parent j == j || not (less h j (parent j)) then h else rest

-- The child that `down` compares with its parent `i`.
unfoldable pub child : ℕ → ℕ → Heap → ℕ
unfolding less
child i n h = if ltb (2 * i + 2) n && less h (2 * i + 2) (2 * i + 1) then 2 * i + 2 else 2 * i + 1

-- container/heap's `down`, on fuel: the heap and where the entry ends up.
unfoldable pub down : ℕ → ℕ → ℕ → Heap → Heap × ℕ
down zero i n h = (h, i)
down (suc fuel) i n h =
    let j = child i n h in
    let rest = down fuel j n (swap i j h) in
    if leb n (2 * i + 1) then (h, i) else if not (less h j i) then (h, i) else rest

-- heap.Push
unfoldable pub heap_push : ℕ → Heap → Heap
heap_push r h = up (h.len + 1) h.len (push_back r h)

-- heap.Remove, before its `Pop`.
unfoldable pub sink_out : ℕ → Heap → Heap
sink_out i h =
    let n = h.len - 1 in
    let (h', i') = down n i n (swap i n h) in
    if n == i then h else if ltb i i' then h' else up (i + 1) i h'

-- heap.Remove
unfoldable pub heap_remove : ℕ → Heap → Heap
heap_remove i h = pop_back (sink_out i h)
