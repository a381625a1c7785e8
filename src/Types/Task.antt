-- ===== src/Types/Task.antt =====
-- `os_task_t` of src/types.h. A field of the C structure is a map from the task's address to the
-- field's value, so that a write to one field of one task visibly leaves the others alone.
use arduino_osh.Base.{ℕ}
use arduino_osh.Types.Enums.{Ptr, TaskStatus, StartStatus}

pub record Tasks : Type 0 where
  pub sp : Ptr → Ptr
  pub stack : Ptr → Ptr
  pub stack_size : Ptr → ℕ
  pub stack_kind : Ptr → ℕ
  pub status : Ptr → TaskStatus
  pub name : Ptr → Ptr
  pub handler : Ptr → Ptr
  pub params : Ptr → Ptr
  pub np : Ptr → Ptr
  pub nrp : Ptr → Ptr
  pub nblocked : Ptr → Ptr
  pub queue : Ptr → Ptr
  pub mutex : Ptr → Ptr
  pub semaphore : Ptr → Ptr
  pub rwlock : Ptr → Ptr
  pub priority : Ptr → ℕ
  -- The union `c` of `message` and `desired`, both one word.
  pub c : Ptr → ℕ
  pub started : Ptr → ℕ
  pub runtime : Ptr → ℕ
  pub scheduled : Ptr → ℕ
  pub delay : Ptr → ℕ
  pub flags : Ptr → ℕ
  pub signal : Ptr → ℕ
  pub highwater : Ptr → ℕ
  pub user_data : Ptr → Ptr

-- `os_task_options_t`.
pub record TaskOptions : Type 0 where
  pub name : Ptr
  pub status : StartStatus
  pub handler : Ptr
  pub params : Ptr
  pub stack : Ptr
  pub stack_size : ℕ
  pub priority : ℕ
