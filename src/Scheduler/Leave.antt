-- ===== src/Scheduler/Leave.antt =====
-- `osi_dispatch` of src/os.c, to a task that blocks: as if the task had come off its object before.
use arduino_osh.Base.{◌≡◌, false, ◌==◌}
use arduino_osh.Types.{Ptr, null, Os}
use arduino_osh.Machine.{ok}
use arduino_osh.Scheduler.Dispatch.{detach, osi_dispatch, switch_to}
use arduino_osh.Scheduler.Resume.{Detaches}

detach_free :
    (s : Os) (task : Ptr) → (task == null) ≡ false → s.task.flags task ≡ 0 → detach task s ≡ ok tt s
unfolding detach
detach_free s task live free = simp (live, free)

pub osi_dispatch-detach :
    (s : Os) (task : Ptr) (d : Detaches s task)
    → (task == null) ≡ false
    → (s.running == null) ≡ false
    → (s.running == task) ≡ false
    → d.after.task.flags task ≡ 0
    → osi_dispatch task s ≡ osi_dispatch task d.after
unfolding osi_dispatch switch_to
osi_dispatch-detach s task d live live_running other free =
    let again = detach_free d.after task live free in
    simp (live, d.running, live_running, other, d.result, again)
