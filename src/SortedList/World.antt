-- ===== src/SortedList/World.antt =====
-- The process around the nodes of project 2b: the options of SortedList.c, one mutex and one spin
-- lock for each sublist, the clock, and commands on all of it by one thread.
-- While a thread is inside an operation no other moves in this model: a lock that is held when it is
-- asked for is `blocked`, since the thread cannot release it itself.
use some_low_level_tasks.Prelude.{
  ℕ, ◌+◌, Bool, true, false, Option, none, some, ◌==◌, ltb, if◌then◌else◌,
}
use some_low_level_tasks.Timer.{TimeSpec}
use some_low_level_tasks.SortedList.Memory.{Heap}

-- `enum sync_options`
pub data SyncOption : Type 0 where
  unsynced mutex spinlock : SyncOption

-- The global variables of SortedList.c and ListInfo.h, and what the process owns.
pub record World : Type 0 where
  pub heap : Heap
  pub sync_opt : SyncOption
  pub opt_yield : ℕ
  pub num_elements : ℕ
  pub num_lists : ℕ
  pub mutexes : ℕ → Bool  -- held or not
  pub spinlocks : ℕ → ℕ
  pub clock : ℕ → Option TimeSpec
  pub clock_calls : ℕ
  pub yields : ℕ  -- calls of `sched_yield`

pub data Outcome (A : Type 0) : Type 0 where
  done : A → World → Outcome A
  fault : Outcome A  -- an access through a null pointer or outside of the array of locks
  blocked : Outcome A
  exited : ℕ → Outcome A

abbrev pub Act : Type 0 → Type 0
Act A = World → Outcome A

abbrev pub pure : {A : Type 0} → A → Act A
pure a w = done a w

abbrev pub and_then : {A B : Type 0} → Outcome A → (A → Act B) → Outcome B
and_then (done a w) f = f a w
and_then fault f = fault
and_then blocked f = blocked
and_then (exited n) f = exited n

infixl 5 ◌>>=◌ ◌>>◌
abbrev pub ◌>>=◌ : {A B : Type 0} → Act A → (A → Act B) → Act B
m >>= f = λ w. and_then (m w) f

abbrev pub ◌>>◌ : {A B : Type 0} → Act A → Act B → Act B
m >> n = m >>= λ _. n

abbrev from_heap : {A : Type 0} → World → Option (A × Heap) → Outcome A
from_heap w none = fault
from_heap w (some (a, h)) = done a (record w { heap = h })

-- A command on memory alone.
abbrev pub on_heap : {A : Type 0} → (Heap → Option (A × Heap)) → Act A
on_heap m w = from_heap w (m w.heap)

abbrev pub set_at {ℓ} : {A : Type ℓ} → (ℕ → A) → ℕ → A → ℕ → A
set_at f i v j = if j == i then v else f j

-- `pthread_mutex_lock` and `pthread_mutex_unlock` on an entry of `mutex`.
unfoldable pub lock_mutex : ℕ → Act (Unit {0})
lock_mutex bin w =
    if ltb bin w.num_lists
    then (if w.mutexes bin
        then blocked
        else done tt (record w { mutexes = set_at w.mutexes bin true }))
    else fault

unfoldable pub unlock_mutex : ℕ → Act (Unit {0})
unlock_mutex bin w =
    if ltb bin w.num_lists
    then done tt (record w { mutexes = set_at w.mutexes bin false })
    else fault

-- `while (__sync_lock_test_and_set(&spinlock[bin], 1)) ;`
unfoldable pub spin : ℕ → Act (Unit {0})
spin bin w =
    if ltb bin w.num_lists
    then (if w.spinlocks bin == 0
        then done tt (record w { spinlocks = set_at w.spinlocks bin 1 })
        else blocked)
    else fault

-- `__sync_lock_release`
unfoldable pub release_spin : ℕ → Act (Unit {0})
release_spin bin w =
    if ltb bin w.num_lists
    then done tt (record w { spinlocks = set_at w.spinlocks bin 0 })
    else fault

unfoldable pub sched_yield : Act (Unit {0})
sched_yield w = done tt (record w { yields = w.yields + 1 })
