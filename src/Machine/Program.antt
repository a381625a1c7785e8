-- ===== src/Machine/Program.antt =====
-- Runs of C code: `OS_ASSERT` of src/types.h, reads and writes through task pointers, output.
use arduino_osh.Base.{ℕ, ◌≡◌, refl, Bool, true, ◌∷◌, ◌==◌, if◌then◌else◌, update}
use arduino_osh.Types.{
  Ptr, null, Tasks, TaskStatus, Os, Event, Blocked, Queue, Mutex, Semaphore, Rwlock, is_mcu,
}

-- `failed` is an `OS_ASSERT` that does not hold (`osi_assert` does not return: it resets the
-- machine), `reset` a call of `NVIC_SystemReset`, `fault` an access through `NULL`, and
-- `out_of_rounds` a loop that is not through after `rounds` rounds.
pub data Run (A : Type 0) : Type 0 where
  ok : A → Os → Run A
  failed : Run A
  reset : Run A
  fault : Run A
  out_of_rounds : Run A

abbrev pub M : Type 0 → Type 0
M A = Os → Run A

abbrev pub pure : {A : Type 0} → A → M A
pure a s = ok a s

module _ {A B : Type 0} where
  abbrev pub and_then : Run A → (A → M B) → Run B
  and_then (ok a s) k = k a s
  and_then failed k = failed
  and_then reset k = reset
  and_then fault k = fault
  and_then out_of_rounds k = out_of_rounds

  infixl 5 ◌>>=◌ ◌>>◌
  abbrev pub ◌>>=◌ : M A → (A → M B) → M B
  ◌>>=◌ m k s = and_then (m s) k

  abbrev pub ◌>>◌ : M A → M B → M B
  ◌>>◌ m k s = and_then (m s) (λ _. k)

abbrev pub skip : M (Unit {0})
skip s = ok tt s

abbrev pub get : {A : Type 0} → (Os → A) → M A
get f s = ok (f s) s

abbrev pub modify : (Os → Os) → M (Unit {0})
modify f s = ok tt (f s)

abbrev pub os_assert : Bool → M (Unit {0})
os_assert b s = if b then ok tt s else failed

-- `p->f`, and `p->f = v`.
abbrev pub load : {A : Type 0} → Ptr → (Tasks → Ptr → A) → M A
load p f s = if p == null then fault else ok (f s.task p) s

abbrev pub store : Ptr → (Tasks → Tasks) → M (Unit {0})
store p f s = if p == null then fault else ok tt (record s { task = f s.task })

abbrev pub set_nrp : Ptr → Ptr → M (Unit {0})
set_nrp p v = store p (λ t. record t { nrp = update t.nrp p v })

abbrev pub set_nblocked : Ptr → Ptr → M (Unit {0})
set_nblocked p v = store p (λ t. record t { nblocked = update t.nblocked p v })

abbrev pub set_status : Ptr → TaskStatus → M (Unit {0})
set_status p v = store p (λ t. record t { status = update t.status p v })

abbrev pub set_delay : Ptr → ℕ → M (Unit {0})
set_delay p v = store p (λ t. record t { delay = update t.delay p v })

abbrev pub set_flags : Ptr → ℕ → M (Unit {0})
set_flags p v = store p (λ t. record t { flags = update t.flags p v })

abbrev pub set_c : Ptr → ℕ → M (Unit {0})
set_c p v = store p (λ t. record t { c = update t.c p v })

abbrev pub set_queue : Ptr → Ptr → M (Unit {0})
set_queue p v = store p (λ t. record t { queue = update t.queue p v })

abbrev pub set_mutex : Ptr → Ptr → M (Unit {0})
set_mutex p v = store p (λ t. record t { mutex = update t.mutex p v })

abbrev pub set_semaphore : Ptr → Ptr → M (Unit {0})
set_semaphore p v = store p (λ t. record t { semaphore = update t.semaphore p v })

abbrev pub set_rwlock : Ptr → Ptr → M (Unit {0})
set_rwlock p v = store p (λ t. record t { rwlock = update t.rwlock p v })

-- The same for the structures that tasks block on.
abbrev pub load_mutex : {A : Type 0} → Ptr → (Mutex → A) → M A
load_mutex p f s = if p == null then fault else ok (f (s.mutex p)) s

abbrev pub store_mutex : Ptr → (Mutex → Mutex) → M (Unit {0})
store_mutex p f s =
    if p == null then fault else ok tt (record s { mutex = update s.mutex p (f (s.mutex p)) })

abbrev pub load_queue : {A : Type 0} → Ptr → (Queue → A) → M A
load_queue p f s = if p == null then fault else ok (f (s.queue p)) s

abbrev pub store_queue : Ptr → (Queue → Queue) → M (Unit {0})
store_queue p f s =
    if p == null then fault else ok tt (record s { queue = update s.queue p (f (s.queue p)) })

abbrev pub load_semaphore : {A : Type 0} → Ptr → (Semaphore → A) → M A
load_semaphore p f s = if p == null then fault else ok (f (s.semaphore p)) s

abbrev pub store_semaphore : Ptr → (Semaphore → Semaphore) → M (Unit {0})
store_semaphore p f s =
    if p == null
    then fault
    else ok tt (record s { semaphore = update s.semaphore p (f (s.semaphore p)) })

abbrev pub load_rwlock : {A : Type 0} → Ptr → (Rwlock → A) → M A
load_rwlock p f s = if p == null then fault else ok (f (s.rwlock p)) s

abbrev pub store_rwlock : Ptr → (Rwlock → Rwlock) → M (Unit {0})
store_rwlock p f s =
    if p == null then fault else ok tt (record s { rwlock = update s.rwlock p (f (s.rwlock p)) })

-- `b.tasks = p`.
abbrev pub with_tasks : Blocked → Ptr → Blocked
with_tasks b p = record b { tasks = p }

-- `osi_printf` and the status hook.
abbrev pub emit : Event → M (Unit {0})
emit e = modify (λ s. record s { trace = e ∷ s.trace })

abbrev pub when : Bool → M (Unit {0}) → M (Unit {0})
when b m s = if b then m s else ok tt s

-- `SCB->ICSR |= SCB_ICSR_PENDSVSET_Msk`, on the two microcontrollers.
abbrev pub pend_sv : M (Unit {0})
pend_sv s = ok tt (if is_mcu s.arch then record s { pendsv = true } else s)

-- The number of rounds after which the model gives up a walk along a list of tasks. `osg.ntasks`
-- is a `uint8_t`, so that no more tasks are meant.
unfoldable pub rounds : ℕ
rounds = 256

-- The state with another `nrp` field of the tasks.
abbrev pub with_nrp : Os → (Ptr → Ptr) → Os
with_nrp s next = record s { task = record (s.task) { nrp = next } }

pub rounds_lem : rounds ≡ 256
unfolding rounds
rounds_lem = refl
