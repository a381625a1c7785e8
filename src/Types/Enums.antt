-- ===== src/Types/Enums.antt =====
-- The enumerations and the numeric constants of src/types.h, and `os_panic_kind_t` of src/os.h.
use arduino_osh.Base.{ℕ, ◌^◌, ◌-◌, Bool, ◌||◌, ◌==◌}

-- An address. `NULL` is 0.
abbrev pub Ptr : Type 0
Ptr = ℕ

abbrev pub null : Ptr
null = 0

-- `uint32_t` and `uint16_t` arithmetic is modulo these, and `UINT32_MAX` is one less.
abbrev pub u32_mod : ℕ
u32_mod = 2 ^ 32

abbrev pub u16_mod : ℕ
u16_mod = 2 ^ 16

abbrev pub u8_mod : ℕ
u8_mod = 2 ^ 8

abbrev pub u32_max : ℕ
u32_max = 2 ^ 32 - 1

-- Which `#if defined(__SAMD..__)` branches the build takes; `linux` is the build of test/linux.
pub data Arch : Type 0 where
  samd21 samd51 linux : Arch

abbrev pub is_mcu : Arch → Bool
is_mcu samd21 = Bool.true
is_mcu samd51 = Bool.true
is_mcu linux = Bool.false

pub data StartStatus : Type 0 where
  running suspended : StartStatus

pub data TaskStatus : Type 0 where
  idle active wait suspended finished panic aborted : TaskStatus

-- The values of `enum os_task_status`.
abbrev pub status_code : TaskStatus → ℕ
status_code idle = 1
status_code active = 2
status_code wait = 3
status_code suspended = 4
status_code finished = 5
status_code panic = 6
status_code aborted = 7

abbrev pub status_eq : TaskStatus → TaskStatus → Bool
status_eq a b = status_code a == status_code b

abbrev pub os_task_status_is_running : TaskStatus → Bool
os_task_status_is_running status =
    status_eq status TaskStatus.active || status_eq status TaskStatus.idle

abbrev pub os_task_status_is_alive : TaskStatus → Bool
os_task_status_is_alive status =
    status_eq status TaskStatus.active
    || status_eq status TaskStatus.idle
    || status_eq status TaskStatus.wait

pub data QueueStatus : Type 0 where
  fine blocked_send blocked_receive : QueueStatus

abbrev pub queue_status_eq : QueueStatus → QueueStatus → Bool
queue_status_eq fine fine = Bool.true
queue_status_eq blocked_send blocked_send = Bool.true
queue_status_eq blocked_receive blocked_receive = Bool.true
queue_status_eq _ _ = Bool.false

pub data OsState : Type 0 where
  unset initialized tasks_initialized started : OsState

abbrev pub os_state_eq : OsState → OsState → Bool
os_state_eq unset unset = Bool.true
os_state_eq initialized initialized = Bool.true
os_state_eq tasks_initialized tasks_initialized = Bool.true
os_state_eq started started = Bool.true
os_state_eq _ _ = Bool.false

-- `os_panic_kind_t` of src/os.h.
pub data PanicKind : Type 0 where
  none assertion stack_overflow app unknown : PanicKind

-- `OS_TASK_FLAG_*`.
abbrev pub flag_none : ℕ
flag_none = 0

abbrev pub flag_mutex : ℕ
flag_mutex = 1

abbrev pub flag_queue : ℕ
flag_queue = 2

abbrev pub flag_semaphore : ℕ
flag_semaphore = 3

abbrev pub flag_rwlock : ℕ
flag_rwlock = 4

-- `OS_PRIORITY_*`.
abbrev pub priority_idle : ℕ
priority_idle = 0

abbrev pub priority_normal : ℕ
priority_normal = 16

abbrev pub queue_flags_queue_only : ℕ
queue_flags_queue_only = 1

abbrev pub mutex_flag_abort_on_timeout : ℕ
mutex_flag_abort_on_timeout = 1

-- `OSS_*`: the values of `os_status_t`.
abbrev pub oss_success : ℕ
oss_success = 0

abbrev pub oss_error : ℕ
oss_error = 1

abbrev pub oss_error_to : ℕ
oss_error_to = 2

abbrev pub oss_error_mem : ℕ
oss_error_mem = 3

abbrev pub oss_error_int : ℕ
oss_error_int = 4

abbrev pub oss_error_invalid : ℕ
oss_error_invalid = 5

-- `OS_STACK_*` and the magic word.
abbrev pub stack_basic_frame_size : ℕ
stack_basic_frame_size = 16

abbrev pub stack_minimum_size : ℕ
stack_minimum_size = 160

abbrev pub stack_magic_word : ℕ
stack_magic_word = 0xE25A2EA5
