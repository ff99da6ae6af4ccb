-- ===== src/Syscall.antt =====
-- kernel/traitant_IT_49.c: the system calls, by number, with the registers as their arguments.
--
-- A register is the integer that it holds, and a memory address of the caller is not followed: what a
-- call would write there is part of its `Resume`; what cons_read takes out of the input is in Keyboard.
-- `Devices` stands for the calls that only drive the screen, the clock's settings, the speaker and the
-- machine's power switch, and touch none of the kernel's data.
pub mod Protection
use kernel_genesis_os.Base.{
  ℕ, ◌-◌, ◌%◌, ℤ, pos, negsuc, ltb_ℤ, leb_ℤ, eqb_ℤ, pos_part, Bool, true, false, Option, none, some,
  List, length, not, ◌&&◌, ◌||◌, if◌then◌else◌,
}
use kernel_genesis_os.Kernel.{Kernel}
use kernel_genesis_os.Kernel.Result.{Result, ok, ◌>>=◌}
use kernel_genesis_os.Kernel.Resume.{Resume, returns, after_cons_read}
use kernel_genesis_os.Keyboard.{Clavier, cons_read}
use kernel_genesis_os.Processus.{getpid, getprio, wait_clock, exit, error}
use kernel_genesis_os.Processus.Filiation.{kill, waitpid}
use kernel_genesis_os.Processus.Priority.{Layout, chprio}
use kernel_genesis_os.Processus.Start.{Launch, Memory, start}
use kernel_genesis_os.Semaphore.{
  to_short, scount, screate, sdelete, sreset, signal, signaln, try_wait, wait,
}
use kernel_genesis_os.Files.{pcount, pcreate, pdelete, preset}
use kernel_genesis_os.Files.Transfer.{psend, preceive}

-- The numbers of builtin_enum.h, and `unknown` for all others.
pub data Builtin : Type 0 where
  getpid_ start_ exit_ kill_ waitpid_ chprio_ getprio_ : Builtin
  pcount_ pcreate_ pdelete_ preceive_ preset_ psend_ : Builtin
  current_clock_ wait_clock_ clock_settings_ : Builtin
  scount_ screate_ sdelete_ sreset_ signal_ signaln_ try_wait_ wait_ : Builtin
  cons_putbytes_ cons_echo_ cons_read_ cons_write_ cons_switch_echo_ : Builtin
  set_color_ set_id_start_ echo_hist_ play_sound_ ps_ exit_kernel_ : Builtin
  unknown : Builtin

pub record Registers : Type 0 where
  pub ebx : ℤ
  pub ecx : ℤ
  pub edx : ℤ
  pub esi : ℤ
  pub edi : ℤ

-- What the kernel's surroundings answer: the clock, the text at a user address, the allocator, the
-- addresses of the kernel's data, the input with the memory behind the area that a reader gives, and
-- what the call of a driver (screen, sound, table of processes, power) returns.
pub record Devices : Type 0 where
  pub ticks : ℕ
  pub text_at : ℤ → List ℕ
  pub memory : Memory
  pub sem_memory : Bool
  pub layout : Layout
  pub clavier : Clavier
  pub behind : List ℤ
  pub drive : Builtin → Registers → Kernel → Resume

-- isUserSpace
unfoldable pub is_user_space : ℤ → Bool
is_user_space a = eqb_ℤ a (pos 0) || (leb_ℤ (pos 0x1000000) a && ltb_ℤ a (pos 0x3000000))

-- A register read as an unsigned number of 32 bits.
unfoldable pub unsigned : ℤ → ℕ
unsigned (pos n) = n % 4294967296
unsigned (negsuc n) = 4294967295 - n % 4294967296

abbrev pub given : ℤ → Bool
given a = not (eqb_ℤ a (pos 0))

-- A call that needs an address of the user's memory in a register.
abbrev pub checked : Bool → Kernel → Result (Kernel × Resume) → Result (Kernel × Resume)
checked true k r = r
checked false k r = error k

abbrev name_at : Devices → ℤ → Option (List ℕ)
name_at d a = if given a then some (d.text_at a) else none

abbrev plain : Kernel → ℤ → Result (Kernel × Resume)
plain k v = ok (k, returns v)

unfoldable pub launch : Devices → Registers → Launch
launch d r = record {
  pt_func = unsigned r.ebx;
  ssize = unsigned r.ecx;
  prio = r.edx;
  name = name_at d r.esi;
  arg = unsigned r.edi;
}

abbrev driven : Devices → Builtin → Registers → Kernel → Result (Kernel × Resume)
driven d b r k = ok (k, d.drive b r k)

abbrev read_resume : Option (List ℤ) → Resume
read_resume none = after_cons_read
read_resume (some s) = returns (pos (length s))

-- The call of cons_read, which puts its caller to sleep where there is no line.
unfoldable pub read_line : Devices → Registers → Kernel → Result (Kernel × Resume)
read_line d r k = do
  (s, c) ← cons_read (unsigned r.ecx) d.behind (record d.clavier { kernel = k })
  ok (c.kernel, read_resume s)

-- traitant_IT_49_switch
unfoldable pub traitant_it_49_switch :
    Devices → Builtin → Registers → Kernel → Result (Kernel × Resume)
traitant_it_49_switch d getpid_ r k = plain k (getpid k)
traitant_it_49_switch d start_ r k =
    checked (is_user_space r.ebx && is_user_space r.esi) k (start (launch d r) d.memory k)
traitant_it_49_switch d exit_ r k = exit r.ebx k
traitant_it_49_switch d kill_ r k = kill r.ebx k
traitant_it_49_switch d waitpid_ r k =
    checked (is_user_space r.ecx) k (waitpid r.ebx (given r.ecx) k)
traitant_it_49_switch d chprio_ r k = chprio d.layout r.ebx r.ecx k
traitant_it_49_switch d getprio_ r k = plain k (getprio r.ebx k)
traitant_it_49_switch d pcount_ r k =
    checked (is_user_space r.ecx) k (ok (k, pcount r.ebx (given r.ecx) k))
traitant_it_49_switch d pcreate_ r k = pcreate r.ebx k
traitant_it_49_switch d pdelete_ r k = pdelete r.ebx k
traitant_it_49_switch d preceive_ r k =
    checked (is_user_space r.ecx) k (preceive r.ebx (given r.ecx) k)
traitant_it_49_switch d preset_ r k = preset r.ebx k
traitant_it_49_switch d psend_ r k = psend r.ebx r.ecx k
traitant_it_49_switch d current_clock_ r k = plain k (pos d.ticks)
traitant_it_49_switch d wait_clock_ r k = wait_clock (unsigned r.ebx) k
traitant_it_49_switch d scount_ r k = plain k (scount r.ebx k)
traitant_it_49_switch d screate_ r k = screate d.sem_memory (to_short r.ebx) k
traitant_it_49_switch d sdelete_ r k = sdelete r.ebx k
traitant_it_49_switch d sreset_ r k = sreset r.ebx (to_short r.ecx) k
traitant_it_49_switch d signal_ r k = signal r.ebx k
traitant_it_49_switch d signaln_ r k = signaln r.ebx (to_short r.ecx) k
traitant_it_49_switch d try_wait_ r k = try_wait r.ebx k
traitant_it_49_switch d wait_ r k = wait r.ebx k
traitant_it_49_switch d clock_settings_ r k =
    checked (is_user_space r.ebx && is_user_space r.ecx) k (plain k (pos 0))
traitant_it_49_switch d cons_putbytes_ r k =
    checked (is_user_space r.ebx) k (driven d cons_putbytes_ r k)
traitant_it_49_switch d cons_read_ r k = checked (is_user_space r.ebx) k (read_line d r k)
traitant_it_49_switch d cons_write_ r k = checked (is_user_space r.ebx) k (driven d cons_write_ r k)
traitant_it_49_switch d unknown r k = plain k (pos 0)
traitant_it_49_switch d b r k = driven d b r k
