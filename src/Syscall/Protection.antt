-- ===== src/Syscall/Protection.antt =====
-- What a system call does with addresses that are not the user's.
use kernel_genesis_os.Base.{◌≡◌, ◌≢◌, ◌⊎◌, ℤ, pos, negsuc, ◌≤ℤ◌, ◌<ℤ◌, false, arith}
use kernel_genesis_os.Kernel.{Kernel}
use kernel_genesis_os.Kernel.Result.{ok}
use kernel_genesis_os.Kernel.Resume.{returns}
use kernel_genesis_os.Syscall.{
  Builtin, start_, waitpid_, pcount_, preceive_, clock_settings_, cons_putbytes_, cons_read_,
  cons_write_, Registers, Devices, is_user_space, traitant_it_49_switch,
}

-- The calls that take an address, and the register that holds it.
pub data Takes (r : Registers) : Builtin → ℤ → Type 0 where
  start_function : Takes r start_ r.ebx
  start_name : Takes r start_ r.esi
  waitpid_result : Takes r waitpid_ r.ecx
  pcount_result : Takes r pcount_ r.ecx
  preceive_result : Takes r preceive_ r.ecx
  clock_quartz : Takes r clock_settings_ r.ebx
  clock_ticks : Takes r clock_settings_ r.ecx
  putbytes_text : Takes r cons_putbytes_ r.ebx
  read_text : Takes r cons_read_ r.ebx
  write_text : Takes r cons_write_ r.ebx

-- An address that is neither null nor between USER_START and USER_END.
abbrev pub IsForeign : ℤ → Type 0
IsForeign a = (a ≢ pos 0) × ((a <ℤ pos 0x1000000) ⊎ (pos 0x3000000 ≤ℤ a))

foreign_refused : (a : ℤ) → IsForeign a → is_user_space a ≡ false
unfolding is_user_space
foreign_refused (pos n) f = ground arith
foreign_refused (negsuc n) f = ground arith

-- A system call that takes an address, and is given one that is neither null nor from USER_START to
-- below USER_END, returns -1 and changes nothing, whatever the other registers hold and whatever
-- the drivers do.
pub foreign_address :
    (d : Devices) (b : Builtin) (r : Registers) (a : ℤ) (k : Kernel)
    → Takes r b a
    → IsForeign a
    → traitant_it_49_switch d b r k ≡ ok (k, returns (negsuc 0))
unfolding traitant_it_49_switch
foreign_address d b r a k start_function f = rw (foreign_refused r.ebx f)
foreign_address d b r a k start_name f = ground (arith, foreign_refused r.esi f)
foreign_address d b r a k waitpid_result f = rw (foreign_refused r.ecx f)
foreign_address d b r a k pcount_result f = rw (foreign_refused r.ecx f)
foreign_address d b r a k preceive_result f = rw (foreign_refused r.ecx f)
foreign_address d b r a k clock_quartz f = rw (foreign_refused r.ebx f)
foreign_address d b r a k clock_ticks f = ground (arith, foreign_refused r.ecx f)
foreign_address d b r a k putbytes_text f = rw (foreign_refused r.ebx f)
foreign_address d b r a k read_text f = rw (foreign_refused r.ebx f)
foreign_address d b r a k write_text f = rw (foreign_refused r.ebx f)
