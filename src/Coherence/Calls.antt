-- ===== src/Coherence/Calls.antt =====
-- The system calls of kernel/traitant_IT_49.c and the coherence of the kernel's data.
use kernel_genesis_os.Base.{ℕ, ◌≡◌, ◌≢◌, ◌∙◌, ap, refl, Bool, true, false, ◌&&◌, pos, eqb_ℤ, arith}
use kernel_genesis_os.Kernel.{Kernel}
use kernel_genesis_os.Kernel.Result.{Result}
use kernel_genesis_os.Kernel.Ends.{Ends-Holds, Ends-bind}
use kernel_genesis_os.Kernel.Resume.{Resume}
use kernel_genesis_os.Syscall.{
  Builtin, getpid_, start_, exit_, kill_, waitpid_, chprio_, getprio_, pcount_, pcreate_, pdelete_,
  preceive_, preset_, psend_, current_clock_, wait_clock_, clock_settings_, scount_, screate_,
  sdelete_, sreset_, signal_, signaln_, try_wait_, wait_, cons_putbytes_, cons_read_, cons_write_,
  unknown, Registers, Devices, traitant_it_49_switch, checked, given, launch, unsigned,
  is_user_space, read_line,
}
use kernel_genesis_os.Keyboard.{cons_read}
use kernel_genesis_os.Keyboard.Reader.{cons_read-IsGood}
use kernel_genesis_os.Semaphore.{to_short}
use kernel_genesis_os.Coherence.Scheduler.{IsGood}
use kernel_genesis_os.Coherence.Caller.{HasLivingFather, StaysGood}
use kernel_genesis_os.Coherence.Clock.{wait_clock-IsGood}
use kernel_genesis_os.Coherence.Processes.{exit-IsGood}
use kernel_genesis_os.Coherence.Kill.{kill-KeepsGood}
use kernel_genesis_os.Coherence.Start.{start-IsGood}
use kernel_genesis_os.Coherence.Waitpid.{waitpid-KeepsGood}
use kernel_genesis_os.Coherence.Priority.{chprio-IsGood}
use kernel_genesis_os.Coherence.Semaphores.{
  KeepsGood, returned, screate-IsGood, sdelete-IsGood, sreset-IsGood, signal-IsGood, signaln-IsGood,
  try_wait-IsGood, wait-IsGood,
}
use kernel_genesis_os.Coherence.Messages.{pcreate-IsGood, pdelete-IsGood, preset-IsGood}
use kernel_genesis_os.Coherence.Transfer.{psend-IsGood, preceive-IsGood}

-- A call that ends its caller: exit, and kill of itself.
abbrev pub leaves : Builtin → Registers → Kernel → Bool
leaves exit_ r k = true
leaves kill_ r k = eqb_ℤ r.ebx (pos k.elu)
leaves _ r k = false

eqb_ℤ-self : (p : ℕ) → eqb_ℤ (pos p) (pos p) ≡ true
eqb_ℤ-self p = ground arith

read_line-IsGood :
    (d : Devices) (r : Registers) (k : Kernel) → IsGood k → k.elu ≢ 0 → StaysGood (read_line d r k)
unfolding read_line
read_line-IsGood d r k g ne =
    Ends-bind (cons_read (unsigned r.ecx) d.behind (record d.clavier { kernel = k })) _
      (cons_read-IsGood (unsigned r.ecx) d.behind (record d.clavier { kernel = k }) g ne)
      (λ x h. (_, refl, h))

checked-KeepsGood :
    (b : Bool) (k : Kernel) (m : Result (Kernel × Resume))
    → IsGood k
    → KeepsGood m
    → KeepsGood (checked b k m)
checked-KeepsGood true k m g h = h
checked-KeepsGood false k m g h = returned k _ g

total : (m : Result (Kernel × Resume)) → StaysGood m → KeepsGood m
total m s = Ends-Holds (λ x. IsGood x.0) m s

-- A system call.
pub traitant_it_49_switch-IsGood :
    (d : Devices) (b : Builtin) (r : Registers) (k : Kernel)
    → IsGood k
    → k.elu ≢ 0
    → (leaves b r k ≡ true → HasLivingFather k k.elu)
    → KeepsGood (traitant_it_49_switch d b r k)
unfolding traitant_it_49_switch
traitant_it_49_switch-IsGood d getpid_ r k g ne v = returned k _ g
traitant_it_49_switch-IsGood d start_ r k g ne v =
    checked-KeepsGood (is_user_space r.ebx && is_user_space r.esi) k _ g
      (total _ (start-IsGood (launch d r) d.memory k g))
traitant_it_49_switch-IsGood d exit_ r k g ne v = total _ (exit-IsGood r.ebx k g ne (v refl))
traitant_it_49_switch-IsGood d kill_ r k g ne v =
    kill-KeepsGood r.ebx k g ne (λ i. v (ap (λ x. eqb_ℤ x (pos k.elu)) i ∙ eqb_ℤ-self k.elu))
traitant_it_49_switch-IsGood d waitpid_ r k g ne v =
    checked-KeepsGood (is_user_space r.ecx) k _ g (waitpid-KeepsGood r.ebx (given r.ecx) k g ne)
traitant_it_49_switch-IsGood d chprio_ r k g ne v = chprio-IsGood d.layout r.ebx r.ecx k g
traitant_it_49_switch-IsGood d getprio_ r k g ne v = returned k _ g
traitant_it_49_switch-IsGood d pcount_ r k g ne v =
    checked-KeepsGood (is_user_space r.ecx) k _ g (returned k _ g)
traitant_it_49_switch-IsGood d pcreate_ r k g ne v = pcreate-IsGood r.ebx k g
traitant_it_49_switch-IsGood d pdelete_ r k g ne v = pdelete-IsGood r.ebx k g
traitant_it_49_switch-IsGood d preceive_ r k g ne v =
    checked-KeepsGood (is_user_space r.ecx) k _ g (preceive-IsGood r.ebx (given r.ecx) k g ne)
traitant_it_49_switch-IsGood d preset_ r k g ne v = preset-IsGood r.ebx k g
traitant_it_49_switch-IsGood d psend_ r k g ne v = psend-IsGood r.ebx r.ecx k g ne
traitant_it_49_switch-IsGood d current_clock_ r k g ne v = returned k _ g
traitant_it_49_switch-IsGood d wait_clock_ r k g ne v =
    total _ (wait_clock-IsGood (unsigned r.ebx) k g ne)
traitant_it_49_switch-IsGood d scount_ r k g ne v = returned k _ g
traitant_it_49_switch-IsGood d screate_ r k g ne v =
    screate-IsGood d.sem_memory (to_short r.ebx) k g
traitant_it_49_switch-IsGood d sdelete_ r k g ne v = sdelete-IsGood r.ebx k g
traitant_it_49_switch-IsGood d sreset_ r k g ne v = sreset-IsGood r.ebx (to_short r.ecx) k g
traitant_it_49_switch-IsGood d signal_ r k g ne v = signal-IsGood r.ebx k g
traitant_it_49_switch-IsGood d signaln_ r k g ne v = signaln-IsGood r.ebx (to_short r.ecx) k g
traitant_it_49_switch-IsGood d try_wait_ r k g ne v = try_wait-IsGood r.ebx k g
traitant_it_49_switch-IsGood d wait_ r k g ne v = total _ (wait-IsGood r.ebx k g ne)
traitant_it_49_switch-IsGood d clock_settings_ r k g ne v =
    checked-KeepsGood (is_user_space r.ebx && is_user_space r.ecx) k _ g (returned k _ g)
traitant_it_49_switch-IsGood d cons_putbytes_ r k g ne v =
    checked-KeepsGood (is_user_space r.ebx) k _ g (returned k _ g)
traitant_it_49_switch-IsGood d cons_read_ r k g ne v =
    checked-KeepsGood (is_user_space r.ebx) k _ g (total _ (read_line-IsGood d r k g ne))
traitant_it_49_switch-IsGood d cons_write_ r k g ne v =
    checked-KeepsGood (is_user_space r.ebx) k _ g (returned k _ g)
traitant_it_49_switch-IsGood d unknown r k g ne v = returned k _ g
traitant_it_49_switch-IsGood d b r k g ne v = returned k _ g
