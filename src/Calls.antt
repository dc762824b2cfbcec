-- ===== src/Calls.antt =====
-- One producing and one consuming handle on one segment, and their calls in any order. Each call
-- runs whole here; `Spsc` interleaves the accesses inside them.
pub mod Refine
pub mod Effects
use shm_spsc.Base.{
  ℕ, ◌-◌, Bool, true, false, Option, none, some, List, [], ◌∷◌, length, get_elem?, ◌==◌,
}
use shm_spsc.Queue
use shm_spsc.Ring.{Handle, Shared, try_push, push_n, front, try_pop, pop_n, size, empty, pointee}

pub record Link {ℓ} (A : Type ℓ) : Type ℓ where
  pub producer : Handle
  pub consumer : Handle
  pub shared : Shared A

pub data Call {ℓ} (A : Type ℓ) : Type ℓ where
  put : A → Call A
  put_all : List A → Call A
  peek : Call A
  get : Call A
  get_n : ℕ → Call A
  measure : Call A
  test : Call A

-- What a caller sees: the result, and what is written through its pointers or read through `front`.
pub data Reply {ℓ} (A : Type ℓ) : Type ℓ where
  pushed : Bool → Reply A
  moved : ℕ → Reply A
  seen : Option A → Reply A
  popped : Bool → Option A → Reply A
  taken : ℕ → List A → Reply A
  sized : ℕ → Reply A
  found_empty : Bool → Reply A

module _ {ℓ} {A : Type ℓ} where
  -- The calls of the benchmarks, on the handle that makes them.
  unfoldable pub push_one : A → Link A → Bool × Link A
  push_one x l =
      let (b, h, s) = try_push x l.producer l.shared in (b, record l { producer = h; shared = s })

  unfoldable pub push_all : List A → (n : ℕ) → Link A → ℕ × Link A
  push_all src n l =
      let (k, h, s) = push_n src n l.producer l.shared in (k, record l { producer = h; shared = s })

  unfoldable pub pop_one : Link A → Bool × Option A × Link A
  pop_one l =
      let (b, out, h, s) = try_pop l.consumer l.shared in
      (b, out, record l { consumer = h; shared = s })

  unfoldable pub pop_all : (n : ℕ) → Link A → ℕ × List A × Link A
  pop_all n l =
      let (k, out, h, s) = pop_n n l.consumer l.shared in
      (k, out, record l { consumer = h; shared = s })

  unfoldable pub step : Link A → Call A → Reply A × Link A
  step l (put x) =
      let (b, h, s) = try_push x l.producer l.shared in
      (pushed b, record l { producer = h; shared = s })
  step l (put_all xs) =
      let (n, h, s) = push_n xs (length xs) l.producer l.shared in
      (moved n, record l { producer = h; shared = s })
  step l peek =
      let (p, h) = front l.consumer l.shared in
      (seen (pointee p l.shared), record l { consumer = h })
  step l get =
      let (b, out, h, s) = try_pop l.consumer l.shared in
      (popped b out, record l { consumer = h; shared = s })
  step l (get_n n) =
      let (k, out, h, s) = pop_n n l.consumer l.shared in
      (taken k out, record l { consumer = h; shared = s })
  step l measure = (sized (size l.producer l.shared), l)
  step l test = (found_empty (empty l.shared), l)

  unfoldable pub run : Link A → List (Call A) → List (Reply A)
  run l [] = []
  run l (c ∷ cs) = let (reply, l') = step l c in reply ∷ run l' cs

module _ {ℓ} {A : Type ℓ} (limit : ℕ) where
  -- The same calls on the bounded queue.
  unfoldable pub queue_step : List A → Call A → Reply A × List A
  queue_step q (put x) = let (b, q') = Queue.push limit x q in (pushed b, q')
  queue_step q (put_all xs) = let (n, q') = Queue.push_n limit xs (length xs) q in (moved n, q')
  queue_step q peek = (seen (Queue.first q), q)
  queue_step q get = let (b, out, q') = Queue.pop q in (popped b out, q')
  queue_step q (get_n n) = let (k, out, q') = Queue.pop_n n q in (taken k out, q')
  queue_step q measure = (sized (length q), q)
  queue_step q test = (found_empty (length q == 0), q)

  unfoldable pub queue_run : List A → List (Call A) → List (Reply A)
  queue_run q [] = []
  queue_run q (c ∷ cs) = let (reply, q') = queue_step q c in reply ∷ queue_run q' cs
