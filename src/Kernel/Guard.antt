-- ===== src/Kernel/Guard.antt =====
-- What `check_kernel_mode` of src/globals.h does for the functions behind it.
use usloss.Base.{◌≡◌, true, false, some, done, fault, Fault}
use usloss.Devices.Disk.{Memory}
use usloss.Mmu.Types.{Vm}
use usloss.Psr.{Cpu, kernel_mode, int_enabled, is_valid}
use usloss.Traps.{IllegalHandler}
use usloss.Traps.Served.{entered}
use usloss.Kernel.{KernelCall, World, CallEnd, carry_out, behind_check}

module _ (memory : Memory) (vm : Vm) (Os : Type 0) where
  -- How a call ends, with a handler of illegal instructions in the kernel.
  pub data Guarded (f : IllegalHandler (World memory vm Os)) (call : KernelCall) (c : Cpu)
      (w : World memory vm Os) (out : CallEnd memory vm Os) : Type 0 where
    direct :
        kernel_mode c.psr ≡ true → out ≡ carry_out memory vm Os call c w → Guarded f call c w out
    masked :
        kernel_mode c.psr ≡ false
        → int_enabled c.psr ≡ false
        → out ≡ some (fault Fault.aborted)
        → Guarded f call c w out
    stopped :
        (e : Fault)
        → kernel_mode c.psr ≡ false
        → int_enabled c.psr ≡ true
        → f (entered c) w ≡ fault e
        → out ≡ some (fault e)
        → Guarded f call c w out
    corrupt :
        (c' : Cpu) (w' : World memory vm Os)
        → kernel_mode c.psr ≡ false
        → int_enabled c.psr ≡ true
        → f (entered c) w ≡ done (c', w')
        → is_valid c'.psr ≡ false
        → out ≡ some (fault Fault.internal_error)
        → Guarded f call c w out
    returned :
        (c' : Cpu) (w' : World memory vm Os)
        → kernel_mode c.psr ≡ false
        → int_enabled c.psr ≡ true
        → f (entered c) w ≡ done (c', w')
        → is_valid c'.psr ≡ true
        → out ≡ behind_check memory vm Os (some f) call c w'
        → Guarded f call c w out
