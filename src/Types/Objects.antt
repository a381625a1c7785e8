-- ===== src/Types/Objects.antt =====
-- The structures of src/types.h that tasks block on, with the definitions that create them.
use arduino_osh.Base.{ℕ}
use arduino_osh.Types.Enums.{Ptr, QueueStatus}

-- `os_blocked_t`: the head of the list of blocked tasks, linked by `nblocked`.
pub record Blocked : Type 0 where
  pub type : ℕ
  pub tasks : Ptr

pub record QueueDefinition : Type 0 where
  pub name : Ptr
  pub size : ℕ
  pub flags : ℕ

-- `os_queue_t`. `messages` runs over `size` words behind the structure.
pub record Queue : Type 0 where
  pub def : QueueDefinition
  pub blocked : Blocked
  pub size : ℕ
  pub number : ℕ
  pub first : ℕ
  pub last : ℕ
  pub status : QueueStatus
  pub messages : ℕ → Ptr

pub record MutexDefinition : Type 0 where
  pub name : Ptr
  pub flags : ℕ

pub record Mutex : Type 0 where
  pub def : MutexDefinition
  pub blocked : Blocked
  pub owner : Ptr
  pub level : ℕ
  pub flags : ℕ

pub record SemaphoreDefinition : Type 0 where
  pub name : Ptr
  pub tokens : ℕ
  pub flags : ℕ

pub record Semaphore : Type 0 where
  pub def : SemaphoreDefinition
  pub blocked : Blocked
  pub tokens : ℕ
  pub flags : ℕ

pub record RwlockDefinition : Type 0 where
  pub name : Ptr
  pub flags : ℕ

pub record Rwlock : Type 0 where
  pub def : RwlockDefinition
  pub blocked : Blocked
  pub readers : ℕ
  pub writers : ℕ
  pub flags : ℕ
  pub writer : Ptr

-- `os_tuple_t`.
pub record Tuple : Type 0 where
  pub status : ℕ
  pub value : ℕ
